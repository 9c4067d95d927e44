-- ===== src/Ffi/Flags/RegSegFlag.antt =====
-- src/ffi.rs: `urma_reg_seg_flag_t`. The access rights stand in six bits from bit 5.
use urma_rs.Base.{ℕ, bit_and, bit_or}
use urma_rs.Ffi.Flags.{shl32, shr, not32}

pub record UrmaRegSegFlag : Type 0 where
  pub value : ℕ

abbrev access_shift : ℕ
access_shift = 5

abbrev access_mask : ℕ
access_mask = shl32 0x3f access_shift

unfoldable pub access : UrmaRegSegFlag → ℕ
access f = shr (bit_and f.value access_mask) access_shift

unfoldable pub with_access : UrmaRegSegFlag → ℕ → UrmaRegSegFlag
with_access f a = record {
  value = bit_or (bit_and f.value (not32 access_mask)) (shl32 a access_shift);
}
