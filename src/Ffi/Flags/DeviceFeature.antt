-- ===== src/Ffi/Flags/DeviceFeature.antt =====
-- src/ffi.rs: `urma_device_feature_t`.
use urma_rs.Base.{ℕ, Bool}
use urma_rs.Ffi.Consts.{urma_feature_ctp_en}
use urma_rs.Ffi.Flags.{has_bits, with_bits}

pub record UrmaDeviceFeature : Type 0 where
  pub value : ℕ

unfoldable pub ctp_en : UrmaDeviceFeature → Bool
ctp_en f = has_bits f.value urma_feature_ctp_en

unfoldable pub with_ctp_en : UrmaDeviceFeature → Bool → UrmaDeviceFeature
with_ctp_en f on = record { value = with_bits f.value urma_feature_ctp_en on }
