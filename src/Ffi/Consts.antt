-- ===== src/Ffi/Consts.antt =====
-- The constants of src/ffi.rs that the safe layer uses.
use urma_rs.Base.{ℕ, ℤ, pos, ◌*◌, ◌^◌}

abbrev pub urma_eid_size : ℕ
urma_eid_size = 16

abbrev pub urma_max_priority_cnt : ℕ
urma_max_priority_cnt = 16

abbrev pub urma_access_read : ℕ
urma_access_read = 1 * 2 ^ 1

abbrev pub urma_access_write : ℕ
urma_access_write = 1 * 2 ^ 2

abbrev pub urma_tm_rm : ℕ
urma_tm_rm = 1

abbrev pub urma_tm_rc : ℕ
urma_tm_rc = 1 * 2 ^ 1

abbrev pub urma_tm_um : ℕ
urma_tm_um = 1 * 2 ^ 2

abbrev pub urma_tp_rtp : ℕ
urma_tp_rtp = 0

abbrev pub urma_tp_ctp : ℕ
urma_tp_ctp = 1

abbrev pub urma_tp_utp : ℕ
urma_tp_utp = 2

abbrev pub urma_target_jetty : ℕ
urma_target_jetty = 1

abbrev pub urma_feature_ctp_en : ℕ
urma_feature_ctp_en = 1 * 2 ^ 18

abbrev pub urma_tp_type_cap_rtp : ℕ
urma_tp_type_cap_rtp = 1 * 2 ^ 0

abbrev pub urma_tp_type_cap_ctp : ℕ
urma_tp_type_cap_ctp = 1 * 2 ^ 1

abbrev pub urma_tp_type_cap_utp : ℕ
urma_tp_type_cap_utp = 1 * 2 ^ 2

abbrev pub urma_order_cap_ot : ℕ
urma_order_cap_ot = 1 * 2 ^ 0

abbrev pub urma_order_cap_oi : ℕ
urma_order_cap_oi = 1 * 2 ^ 1

abbrev pub urma_order_cap_ol : ℕ
urma_order_cap_ol = 1 * 2 ^ 2

abbrev pub urma_order_cap_no : ℕ
urma_order_cap_no = 1 * 2 ^ 3

abbrev pub urma_tp_feat_rm_multi_path : ℕ
urma_tp_feat_rm_multi_path = 1 * 2 ^ 0

abbrev pub urma_tp_feat_rc_multi_path : ℕ
urma_tp_feat_rc_multi_path = 1 * 2 ^ 1

abbrev pub urma_jetty_grp_policy_rr : ℕ
urma_jetty_grp_policy_rr = 0

abbrev pub urma_opc_write : ℕ
urma_opc_write = 0

abbrev pub urma_opc_read : ℕ
urma_opc_read = 0x10

abbrev pub urma_opc_send : ℕ
urma_opc_send = 0x40

abbrev pub urma_jetty_flag_share_jfr : ℕ
urma_jetty_flag_share_jfr = 1 * 2 ^ 0

abbrev pub urma_jfs_flag_order_type_shift : ℕ
urma_jfs_flag_order_type_shift = 3

abbrev pub urma_jfs_flag_multi_path : ℕ
urma_jfs_flag_multi_path = 1 * 2 ^ 11

abbrev pub urma_jfs_wr_flag_complete_enable : ℕ
urma_jfs_wr_flag_complete_enable = 1 * 2 ^ 5

abbrev pub urma_jfs_wr_flag_comp_order : ℕ
urma_jfs_wr_flag_comp_order = 1 * 2 ^ 2

abbrev pub urma_success : ℤ
urma_success = pos 0

abbrev pub urma_cr_success : ℤ
urma_cr_success = pos 0

abbrev pub urma_typical_rnr_retry : ℕ
urma_typical_rnr_retry = 7

abbrev pub urma_typical_err_timeout : ℕ
urma_typical_err_timeout = 17

abbrev pub urma_typical_min_rnr_timer : ℕ
urma_typical_min_rnr_timer = 12

abbrev pub urma_max_priority : ℕ
urma_max_priority = 15
