-- ===== src/Ffi/Flags/OrderTypeCap.antt =====
-- src/ffi.rs: `urma_order_type_cap_t`.
use urma_rs.Base.{ℕ, Bool}
use urma_rs.Ffi.Consts.{urma_order_cap_ot, urma_order_cap_oi, urma_order_cap_ol, urma_order_cap_no}
use urma_rs.Ffi.Flags.{has_bits}

pub record UrmaOrderTypeCap : Type 0 where
  pub value : ℕ

unfoldable pub ot : UrmaOrderTypeCap → Bool
ot c = has_bits c.value urma_order_cap_ot

unfoldable pub oi : UrmaOrderTypeCap → Bool
oi c = has_bits c.value urma_order_cap_oi

unfoldable pub ol : UrmaOrderTypeCap → Bool
ol c = has_bits c.value urma_order_cap_ol

-- `no` in the source, a name that the language keeps for itself.
unfoldable pub no_order : UrmaOrderTypeCap → Bool
no_order c = has_bits c.value urma_order_cap_no
