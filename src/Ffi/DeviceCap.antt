-- ===== src/Ffi/DeviceCap.antt =====
-- `urma_device_cap_t` of src/ffi.rs.
use urma_rs.Base.{ℕ, List}
use urma_rs.Ffi.Flags.DeviceFeature.{UrmaDeviceFeature}
use urma_rs.Ffi.Flags.TpTypeCap.{UrmaTpTypeCap}
use urma_rs.Ffi.Flags.OrderTypeCap.{UrmaOrderTypeCap}
use urma_rs.Ffi.Flags.TpFeature.{UrmaTpFeature}

-- `urma_sl_info_t`; `tp_type` is the word of `urma_tp_type_en_t`.
pub record UrmaSlInfo : Type 0 where
  pub sl : ℕ
  pub tp_type : ℕ

pub record UrmaDeviceCap : Type 0 where
  pub feature : UrmaDeviceFeature
  pub max_jfc : ℕ
  pub max_jfs : ℕ
  pub max_jfr : ℕ
  pub max_jetty : ℕ
  pub max_jetty_grp : ℕ
  pub max_jetty_in_jetty_grp : ℕ
  pub max_jfc_depth : ℕ
  pub max_jfs_depth : ℕ
  pub max_jfr_depth : ℕ
  pub max_jfs_inline_len : ℕ
  pub max_jfs_sge : ℕ
  pub max_jfs_rsge : ℕ
  pub max_jfr_sge : ℕ
  pub max_msg_size : ℕ
  pub max_read_size : ℕ
  pub max_write_size : ℕ
  pub max_cas_size : ℕ
  pub max_swap_size : ℕ
  pub max_fetch_and_add_size : ℕ
  pub max_fetch_and_sub_size : ℕ
  pub max_fetch_and_and_size : ℕ
  pub max_fetch_and_or_size : ℕ
  pub max_fetch_and_xor_size : ℕ
  pub atomic_feat : ℕ
  pub trans_mode : ℕ
  pub reserved : ℕ
  pub congestion_ctrl_alg : ℕ
  pub ceq_cnt : ℕ
  pub max_tp_in_tpg : ℕ
  pub max_eid_cnt : ℕ
  pub page_size_cap : ℕ
  pub max_oor_cnt : ℕ
  pub mn : ℕ
  pub max_netaddr_cnt : ℕ
  pub rm_order_cap : UrmaOrderTypeCap
  pub rc_order_cap : UrmaOrderTypeCap
  pub rm_tp_cap : UrmaTpTypeCap
  pub rc_tp_cap : UrmaTpTypeCap
  pub um_tp_cap : UrmaTpTypeCap
  pub tp_feature : UrmaTpFeature
  -- `[urma_sl_info_t; URMA_MAX_PRIORITY_CNT]`.
  pub priority_info : List UrmaSlInfo
