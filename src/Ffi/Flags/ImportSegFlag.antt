-- ===== src/Ffi/Flags/ImportSegFlag.antt =====
-- src/ffi.rs: `urma_import_seg_flag_t`. The access rights stand in six bits from bit 1.
use urma_rs.Base.{ℕ, bit_and, bit_or}
use urma_rs.Ffi.Flags.{shl32, shr, not32}

pub record UrmaImportSegFlag : Type 0 where
  pub value : ℕ

abbrev access_shift : ℕ
access_shift = 1

abbrev access_mask : ℕ
access_mask = shl32 0x3f access_shift

unfoldable pub access : UrmaImportSegFlag → ℕ
access f = shr (bit_and f.value access_mask) access_shift

unfoldable pub with_access : UrmaImportSegFlag → ℕ → UrmaImportSegFlag
with_access f a = record {
  value = bit_or (bit_and f.value (not32 access_mask)) (shl32 a access_shift);
}
