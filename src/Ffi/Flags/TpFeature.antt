-- ===== src/Ffi/Flags/TpFeature.antt =====
-- src/ffi.rs: `urma_tp_feature_t`.
use urma_rs.Base.{ℕ, Bool}
use urma_rs.Ffi.Consts.{urma_tp_feat_rm_multi_path, urma_tp_feat_rc_multi_path}
use urma_rs.Ffi.Flags.{has_bits}

pub record UrmaTpFeature : Type 0 where
  pub value : ℕ

unfoldable pub rm_multi_path : UrmaTpFeature → Bool
rm_multi_path f = has_bits f.value urma_tp_feat_rm_multi_path

unfoldable pub rc_multi_path : UrmaTpFeature → Bool
rc_multi_path f = has_bits f.value urma_tp_feat_rc_multi_path
