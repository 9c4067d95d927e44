-- ===== src/Ffi/Flags/JfsFlag.antt =====
-- src/ffi.rs: `urma_jfs_flag_t`. The order type stands in eight bits from bit 3, multi_path is
-- bit 11.
use urma_rs.Base.{ℕ, bit_and, bit_or, Bool}
use urma_rs.Ffi.Consts.{urma_jfs_flag_order_type_shift, urma_jfs_flag_multi_path}
use urma_rs.Ffi.Flags.{shl32, shr, not32, has_bits, with_bits}

pub record UrmaJfsFlag : Type 0 where
  pub value : ℕ

unfoldable pub order_type : UrmaJfsFlag → ℕ
order_type f = bit_and (shr f.value urma_jfs_flag_order_type_shift) 0xff

unfoldable pub with_order_type : UrmaJfsFlag → ℕ → UrmaJfsFlag
with_order_type f v = record {
  value =
      bit_or (bit_and f.value (not32 (shl32 0xff urma_jfs_flag_order_type_shift)))
        (shl32 v urma_jfs_flag_order_type_shift);
}

unfoldable pub multi_path : UrmaJfsFlag → Bool
multi_path f = has_bits f.value urma_jfs_flag_multi_path

unfoldable pub with_multi_path : UrmaJfsFlag → Bool → UrmaJfsFlag
with_multi_path f on = record { value = with_bits f.value urma_jfs_flag_multi_path on }
