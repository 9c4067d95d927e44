-- ===== src/Ffi/Flags/TpTypeCap.antt =====
-- src/ffi.rs: `urma_tp_type_cap_t`.
use urma_rs.Base.{ℕ, Bool}
use urma_rs.Ffi.Consts.{urma_tp_type_cap_rtp, urma_tp_type_cap_ctp, urma_tp_type_cap_utp}
use urma_rs.Ffi.Flags.{has_bits}

pub record UrmaTpTypeCap : Type 0 where
  pub value : ℕ

unfoldable pub rtp : UrmaTpTypeCap → Bool
rtp c = has_bits c.value urma_tp_type_cap_rtp

unfoldable pub ctp : UrmaTpTypeCap → Bool
ctp c = has_bits c.value urma_tp_type_cap_ctp

unfoldable pub utp : UrmaTpTypeCap → Bool
utp c = has_bits c.value urma_tp_type_cap_utp
