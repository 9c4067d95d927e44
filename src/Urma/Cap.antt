-- ===== src/Urma/Cap.antt =====
-- src/urma.rs: `DeviceCap`, the safe view of a device's capabilities, and its queries.
pub mod Laws
use urma_rs.Base.{
  ℕ, suc, Bool, true, false, ◌&&◌, List, [], ◌∷◌, ◌++◌, map, Option, none, some, position, ◌%◌, ◌^◌,
}
use urma_rs.Ffi.Consts.{urma_tp_type_cap_rtp, urma_tp_type_cap_ctp, urma_tp_type_cap_utp}
use urma_rs.Ffi.Flags.{has_bits}
use urma_rs.Ffi.Flags.DeviceFeature.{ctp_en}
use urma_rs.Ffi.Flags.TpTypeCap.{UrmaTpTypeCap}
use urma_rs.Ffi.Flags.TpTypeCap.{rtp as raw_rtp, ctp as raw_ctp, utp as raw_utp}
use urma_rs.Ffi.Flags.OrderTypeCap.{UrmaOrderTypeCap, ot, oi, ol, no_order}
use urma_rs.Ffi.Flags.TpFeature.{rm_multi_path, rc_multi_path}
use urma_rs.Ffi.DeviceCap.{UrmaDeviceCap, UrmaSlInfo}
use urma_rs.Urma.Modes.{
  TransMode, rm, rc, um, TpType, rtp, ctp, utp, all_trans_modes, all_tp_types, bit,
}

pub record TpTypeCap : Type 0 where
  pub has_rtp : Bool
  pub has_ctp : Bool
  pub has_utp : Bool

pub record OrderTypeCap : Type 0 where
  pub has_ot : Bool
  pub has_oi : Bool
  pub has_ol : Bool
  pub has_no : Bool

pub record DeviceCap : Type 0 where
  pub trans_modes : ℕ
  pub ctp_enabled : Bool
  pub rm_tp_cap : TpTypeCap
  pub rc_tp_cap : TpTypeCap
  pub um_tp_cap : TpTypeCap
  pub rm_order_cap : OrderTypeCap
  pub rc_order_cap : OrderTypeCap
  pub rm_multi_path : Bool
  pub rc_multi_path : Bool
  pub max_jfs_sge : ℕ
  pub max_jfr_sge : ℕ
  pub max_msg_size : ℕ
  pub max_jfs_depth : ℕ
  pub max_jfr_depth : ℕ
  pub max_jfc_depth : ℕ
  pub max_read_size : ℕ
  pub max_write_size : ℕ
  pub page_size_cap : ℕ
  pub priority_tp : List TpTypeCap

tp_type_cap : UrmaTpTypeCap → TpTypeCap
tp_type_cap c = record { has_rtp = raw_rtp c; has_ctp = raw_ctp c; has_utp = raw_utp c }

order_type_cap : UrmaOrderTypeCap → OrderTypeCap
order_type_cap c = record { has_ot = ot c; has_oi = oi c; has_ol = ol c; has_no = no_order c }

-- The class of a priority slot.
slot_cap : UrmaSlInfo → TpTypeCap
slot_cap sl = record {
  has_rtp = has_bits sl.tp_type urma_tp_type_cap_rtp;
  has_ctp = has_bits sl.tp_type urma_tp_type_cap_ctp;
  has_utp = has_bits sl.tp_type urma_tp_type_cap_utp;
}

-- `DeviceCap::from_raw`.
unfoldable pub from_raw : UrmaDeviceCap → DeviceCap
unfolding tp_type_cap order_type_cap slot_cap
from_raw cap = record {
  trans_modes = cap.trans_mode;
  ctp_enabled = ctp_en cap.feature;
  rm_tp_cap = tp_type_cap cap.rm_tp_cap;
  rc_tp_cap = tp_type_cap cap.rc_tp_cap;
  um_tp_cap = tp_type_cap cap.um_tp_cap;
  rm_order_cap = order_type_cap cap.rm_order_cap;
  rc_order_cap = order_type_cap cap.rc_order_cap;
  rm_multi_path = rm_multi_path cap.tp_feature;
  rc_multi_path = rc_multi_path cap.tp_feature;
  max_jfs_sge = cap.max_jfs_sge;
  max_jfr_sge = cap.max_jfr_sge;
  max_msg_size = cap.max_msg_size;
  max_jfs_depth = cap.max_jfs_depth;
  max_jfr_depth = cap.max_jfr_depth;
  max_jfc_depth = cap.max_jfc_depth;
  max_read_size = cap.max_read_size;
  max_write_size = cap.max_write_size;
  page_size_cap = cap.page_size_cap;
  priority_tp = map slot_cap cap.priority_info;
}

-- `m.bit() as u16` keeps sixteen bits.
unfoldable pub supports_mode : DeviceCap → TransMode → Bool
supports_mode c m = has_bits c.trans_modes (bit m % 2 ^ 16)

unfoldable pub tp_cap : DeviceCap → TransMode → TpTypeCap
tp_cap c rm = c.rm_tp_cap
tp_cap c rc = c.rc_tp_cap
tp_cap c um = c.um_tp_cap

unfoldable pub order_cap : DeviceCap → TransMode → OrderTypeCap
order_cap c rm = c.rm_order_cap
order_cap c rc = c.rc_order_cap
order_cap c um = record { has_ot = false; has_oi = false; has_ol = false; has_no = false }

unfoldable pub supports_multi_path : DeviceCap → TransMode → Bool
supports_multi_path c rm = c.rm_multi_path
supports_multi_path c rc = c.rc_multi_path
supports_multi_path c um = false

-- The field of a class that a tp type selects.
abbrev pub serves : TpType → TpTypeCap → Bool
serves rtp c = c.has_rtp
serves ctp c = c.has_ctp
serves utp c = c.has_utp

tp_ok : DeviceCap → TpTypeCap → TpType → Bool
tp_ok c cap rtp = cap.has_rtp
tp_ok c cap ctp = cap.has_ctp && c.ctp_enabled
tp_ok c cap utp = cap.has_utp

unfoldable pub supports : DeviceCap → TransMode → TpType → Bool
unfolding tp_ok tp_cap
supports c m tp = supports_mode c m && tp_ok c (tp_cap c m) tp

-- The inner loop of `supported_combos`, over the tp types.
combos_of : DeviceCap → TransMode → List TpType → List (TransMode × TpType)
combos_of c m [] = []
combos_of c m (tp ∷ tps) = elim (supports c m tp) [
  | true ↦ (m, tp) ∷ combos_of c m tps
  | false ↦ combos_of c m tps
]

combos_from : DeviceCap → List TransMode → List (TransMode × TpType)
combos_from c [] = []
combos_from c (m ∷ ms) = combos_of c m all_tp_types ++ combos_from c ms

unfoldable pub supported_combos : DeviceCap → List (TransMode × TpType)
unfolding combos_from combos_of
supported_combos c = combos_from c all_trans_modes

-- The position is cast to u8.
unfoldable pub priority_for : DeviceCap → TpType → Option ℕ
priority_for c tp = elim (position (serves tp) c.priority_tp) [
  | none ↦ none
  | some i ↦ some (i % 2 ^ 8)
]
