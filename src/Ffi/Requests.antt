-- ===== src/Ffi/Requests.antt =====
-- Work requests of src/ffi.rs as they lie in memory: three arrays, and pointers into them.
-- `urma_post_jetty_send_wr` is handed the arrays and starts at the first work request.
use urma_rs.Base.{ℕ, zero, suc, List, [], ◌∷◌, Option, none, some, get_elem?, take, drop}
use urma_rs.Ffi.Structs.{UrmaSge}

-- `*mut urma_sge_t`: NULL, or an element of the array of remote or of local sges.
pub data SgePtr : Type 0 where
  null_sge : SgePtr
  remote local : ℕ → SgePtr

pub record UrmaSg : Type 0 where
  pub sge : SgePtr
  pub num_sge : ℕ

pub record UrmaRwWr : Type 0 where
  pub src : UrmaSg
  pub dst : UrmaSg
  pub target_hint : ℕ
  pub notify_data : ℕ

-- `next` is NULL or the index of another element of the array of work requests.
pub record UrmaJfsWr : Type 0 where
  pub opcode : ℕ
  pub flag : ℕ
  pub tjetty : ℕ
  pub user_ctx : ℕ
  pub rw : UrmaRwWr
  pub next : Option ℕ

pub record WrMemory : Type 0 where
  pub remote_sges : List UrmaSge
  pub local_sges : List UrmaSge
  pub wrs : List UrmaJfsWr

abbrev pub null_sg : UrmaSg
null_sg = record { sge = null_sge; num_sge = 0 }

-- `urma_rw_wr_t::default()`.
abbrev pub default_rw : UrmaRwWr
default_rw = record { src = null_sg; dst = null_sg; target_hint = 0; notify_data = 0 }

-- What a receiver of the pointers sees: a work request with its sges read.
pub record Posted : Type 0 where
  pub opcode : ℕ
  pub flag : ℕ
  pub tjetty : ℕ
  pub user_ctx : ℕ
  pub src : List UrmaSge
  pub dst : List UrmaSge

abbrev sges : WrMemory → UrmaSg → List UrmaSge
sges m sg = elim sg.sge [
  | null_sge ↦ []
  | remote i ↦ take sg.num_sge (drop i m.remote_sges)
  | local i ↦ take sg.num_sge (drop i m.local_sges)
]

abbrev pub posted : WrMemory → UrmaJfsWr → Posted
posted m wr = record {
  opcode = wr.opcode;
  flag = wr.flag;
  tjetty = wr.tjetty;
  user_ctx = wr.user_ctx;
  src = sges m wr.rw.src;
  dst = sges m wr.rw.dst;
}

-- The walk along `next` from element `i`, with fuel; `none` when the fuel runs out or a pointer
-- leads out of the array.
unfoldable pub walk : ℕ → WrMemory → Option ℕ → Option (List Posted)
walk zero m none = some []
walk zero m (some i) = none
walk (suc fuel) m none = some []
walk (suc fuel) m (some i) = elim (get_elem? m.wrs i) [
  | none ↦ none
  | some wr ↦ elim (walk fuel m wr.next) [ none ↦ none | some rest ↦ some (posted m wr ∷ rest) ]
]
