-- ===== src/Urma/Modes.antt =====
-- src/urma.rs: `TransMode` and `TpType`, with the values that the C side gives them.
use urma_rs.Base.{ℕ, String, List, [], ◌∷◌}
use urma_rs.Ffi.Consts.{urma_tm_rm, urma_tm_rc, urma_tm_um, urma_tp_rtp, urma_tp_ctp, urma_tp_utp}

pub data TransMode : Type 0 where
  rm rc um : TransMode

pub data TpType : Type 0 where
  rtp ctp utp : TpType

-- `TransMode::ALL` and `TpType::ALL`.
abbrev pub all_trans_modes : List TransMode
all_trans_modes = rm ∷ rc ∷ um ∷ []

abbrev pub all_tp_types : List TpType
all_tp_types = rtp ∷ ctp ∷ utp ∷ []

abbrev pub bit : TransMode → ℕ
bit rm = urma_tm_rm
bit rc = urma_tm_rc
bit um = urma_tm_um

abbrev pub raw : TpType → ℕ
raw rtp = urma_tp_rtp
raw ctp = urma_tp_ctp
raw utp = urma_tp_utp

unfoldable pub trans_mode_name : TransMode → String
trans_mode_name rm = "RM"
trans_mode_name rc = "RC"
trans_mode_name um = "UM"

unfoldable pub tp_type_name : TpType → String
tp_type_name rtp = "RTP"
tp_type_name ctp = "CTP"
tp_type_name utp = "UTP"
