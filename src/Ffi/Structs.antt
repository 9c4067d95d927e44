-- ===== src/Ffi/Structs.antt =====
-- The structs of src/ffi.rs that the safe layer fills or reads. Pointers are numbers, 0 is NULL.
use urma_rs.Base.{ℕ, ℤ, List}
use urma_rs.Urma.Values.{UrmaEid, UrmaJettyId}
use urma_rs.Ffi.Flags.JfsFlag.{UrmaJfsFlag}
use urma_rs.Ffi.Flags.RegSegFlag.{UrmaRegSegFlag}

pub record UrmaInitAttr : Type 0 where
  pub token : ℕ
  pub uasid : ℕ

pub record UrmaEidInfo : Type 0 where
  pub eid : UrmaEid
  pub eid_index : ℕ

pub record UrmaToken : Type 0 where
  pub token : ℕ

-- The flag word of a jfc, jfr, jetty or import of a jetty: only ever set whole.
pub record UrmaFlag : Type 0 where
  pub value : ℕ

pub record UrmaJfcCfg : Type 0 where
  pub depth : ℕ
  pub flag : UrmaFlag
  pub ceqn : ℕ
  pub jfce : ℕ
  pub user_ctx : ℕ

pub record UrmaJfsCfg : Type 0 where
  pub depth : ℕ
  pub flag : UrmaJfsFlag
  pub trans_mode : ℕ
  pub priority : ℕ
  pub max_sge : ℕ
  pub max_rsge : ℕ
  pub max_inline_data : ℕ
  pub rnr_retry : ℕ
  pub err_timeout : ℕ
  pub jfc : ℕ
  pub user_ctx : ℕ

pub record UrmaJfrCfg : Type 0 where
  pub id : ℕ
  pub depth : ℕ
  pub flag : UrmaFlag
  pub trans_mode : ℕ
  pub max_sge : ℕ
  pub min_rnr_timer : ℕ
  pub jfc : ℕ
  pub token_value : UrmaToken
  pub user_ctx : ℕ

pub record UrmaJettyRecvCfg : Type 0 where
  pub jfr : ℕ
  pub jfc : ℕ

pub record UrmaJettyCfg : Type 0 where
  pub id : ℕ
  pub flag : UrmaFlag
  pub jfs_cfg : UrmaJfsCfg
  pub recv : UrmaJettyRecvCfg
  pub jetty_grp : ℕ
  pub user_ctx : ℕ

pub record UrmaRjetty : Type 0 where
  pub jetty_id : UrmaJettyId
  pub trans_mode : ℕ
  pub policy : ℕ
  pub target_type : ℕ
  pub flag : UrmaFlag
  pub tp_type : ℕ

pub record UrmaUbva : Type 0 where
  pub eid : List ℕ
  pub uasid : ℕ
  pub va : ℕ

pub record UrmaSegAttr : Type 0 where
  pub value : ℕ

pub record UrmaSeg : Type 0 where
  pub ubva : UrmaUbva
  pub len : ℕ
  pub attr : UrmaSegAttr
  pub token_id : ℕ

pub record UrmaSegCfg : Type 0 where
  pub va : ℕ
  pub len : ℕ
  pub token_id : ℕ
  pub token_value : UrmaToken
  pub flag : UrmaRegSegFlag
  pub user_ctx : ℕ
  pub iova : ℕ

pub record UrmaSge : Type 0 where
  pub addr : ℕ
  pub len : ℕ
  pub tseg : ℕ
  pub user_tseg : ℕ

-- The fields of a completion record that the safe layer reads.
pub record UrmaCr : Type 0 where
  pub status : ℤ
  pub user_ctx : ℕ
  pub completion_len : ℕ

-- `size_of::<urma_seg_t>()` and `size_of::<urma_rjetty_t>()`, as the layout tests have them, and
-- the offset of `tp_type` in the latter.
abbrev pub size_of_seg : ℕ
size_of_seg = 48

abbrev pub size_of_rjetty : ℕ
size_of_rjetty = 48

abbrev pub offset_of_tp_type : ℕ
offset_of_tp_type = 40
