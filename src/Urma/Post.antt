-- ===== src/Urma/Post.antt =====
-- src/urma.rs: the posting of work requests by a `Jetty`.
pub mod Chain
pub mod Single
use urma_rs.Base.{
  ℕ, zero, suc, ◌+◌, ◌^◌, ◌%◌, ltb, bit_or, Bool, true, false, String, List, [], ◌∷◌, Option, none,
  some, length, map, if◌then◌else◌,
}
use urma_rs.Error.{Result, ok, err, invalid, text, local_sges_exceed_max_sge, check_status}
use urma_rs.Ffi.Consts.{
  urma_opc_read, urma_opc_write, urma_opc_send, urma_jfs_wr_flag_complete_enable,
  urma_jfs_wr_flag_comp_order,
}
use urma_rs.Ffi.Structs.{UrmaSge}
use urma_rs.Ffi.Requests.{
  UrmaSg, UrmaRwWr, UrmaJfsWr, WrMemory, SgePtr, remote, local, null_sg, default_rw,
}
use urma_rs.Ffi.Liburma.{Liburma}
use urma_rs.Ffi.Io.{Io, ◌>>=◌, pure, fail, lift, urma_post_jetty_send_wr, urma_post_jfr_wr}
use urma_rs.Urma.Seg.{LocalSge, to_ffi}
use urma_rs.Urma.Jetty.{Jetty}
use urma_rs.Urma.Peer.{Peer}

-- `ReadReq` and `WriteReq` have the same fields.
pub record Req : Type 0 where
  pub remote_va : ℕ
  pub local : LocalSge
  pub user_ctx : ℕ
  pub signaled : Bool

-- `Jetty::check_local`.
unfoldable pub check_local : Jetty → List LocalSge → Result (List UrmaSge)
check_local j [] = err (invalid (text "empty local sge list"))
check_local j (s ∷ sges) =
    if ltb j.max_sge (length (s ∷ sges))
    then err (invalid (local_sges_exceed_max_sge (length (s ∷ sges)) j.max_sge))
    else ok (map to_ffi (s ∷ sges))

-- `try_fold(0u32, |a, s| a.checked_add(s.len))`.
unfoldable pub checked_total : ℕ → List LocalSge → Option ℕ
checked_total a [] = some a
checked_total a (s ∷ sges) = elim (ltb (a + s.len) (2 ^ 32)) [
  | true ↦ checked_total (a + s.len) sges
  | false ↦ none
]

unfoldable pub total_len : List LocalSge → Result ℕ
unfolding checked_total
total_len sges = elim (checked_total 0 sges) [
  | none ↦ err (invalid (text "total local sge length overflows u32"))
  | some total ↦ ok total
]

-- The flag of a signaled or an unsignaled request.
abbrev pub wr_flag : Bool → ℕ
wr_flag signaled =
    if signaled then bit_or urma_jfs_wr_flag_complete_enable urma_jfs_wr_flag_comp_order else 0

-- The direction of the data: a READ has the remote range as its source, a WRITE as its destination.
abbrev pub rw_of : Bool → UrmaSg → UrmaSg → UrmaRwWr
rw_of is_read remote_sg local_sg =
    if is_read
    then record default_rw { src = remote_sg; dst = local_sg }
    else record default_rw { src = local_sg; dst = remote_sg }

abbrev pub opcode_of : Bool → ℕ
opcode_of is_read = if is_read then urma_opc_read else urma_opc_write

-- The one-element `urma_sge_t` of the remote range.
abbrev pub remote_sge : Peer → ℕ → ℕ → UrmaSge
remote_sge peer remote_va len = record {
  addr = remote_va;
  len = len;
  tseg = peer.tseg;
  user_tseg = 0;
}

-- `n` local sges from the first on.
abbrev pub local_sg : List UrmaSge → UrmaSg
local_sg sges = record { sge = local 0; num_sge = length sges % 2 ^ 32 }

-- The memory of a single READ or WRITE.
abbrev pub rw_memory : Bool → Peer → ℕ → ℕ → List UrmaSge → ℕ → Bool → WrMemory
rw_memory is_read peer remote_va total local_sges user_ctx signaled = record {
  remote_sges = remote_sge peer remote_va total ∷ [];
  local_sges = local_sges;
  wrs =
      record {
        opcode = opcode_of is_read;
        flag = wr_flag signaled;
        tjetty = peer.tjetty;
        user_ctx = user_ctx;
        rw = rw_of is_read (record { sge = remote 0; num_sge = 1 }) (local_sg local_sges);
        next = none;
      }
      ∷ [];
}

-- First loop of the list forms: one request for each entry, not wired yet.
abbrev list_wr : Bool → Peer → Req → UrmaJfsWr
list_wr is_read peer r = record {
  opcode = opcode_of is_read;
  flag = wr_flag r.signaled;
  tjetty = peer.tjetty;
  user_ctx = r.user_ctx;
  rw = default_rw;
  next = none;
}

-- Second loop: request `i` of `n` is given its two sges and the pointer to the next one.
unfoldable pub wire : Bool → ℕ → ℕ → List UrmaJfsWr → List UrmaJfsWr
wire is_read n i [] = []
wire is_read n i (wr ∷ wrs) =
    record wr {
      rw =
          rw_of is_read (record { sge = remote i; num_sge = 1 })
            (record { sge = local i; num_sge = 1 });
      next = if ltb (suc i) n then some (suc i) else wr.next;
    }
    ∷ wire is_read n (suc i) wrs

unfoldable pub list_memory : Bool → Peer → List Req → WrMemory
unfolding wire
list_memory is_read peer reqs = record {
  remote_sges = map (λ r. remote_sge peer r.remote_va r.local.len) reqs;
  local_sges = map (λ r. to_ffi r.local) reqs;
  wrs = wire is_read (length reqs) 0 (map (list_wr is_read peer) reqs);
}

module _ (p : Liburma) where
  -- The body that the single READ and the single WRITE have in common.
  unfoldable pub post_rw :
      Bool → String → Jetty → Peer → ℕ → List LocalSge → ℕ → Bool → Io (Unit {0})
  unfolding check_local total_len check_status
  post_rw is_read what j peer remote_va local_list user_ctx signaled = do
    local_sges ← lift (check_local j local_list)
    total ← lift (total_len local_list)
    st ←
        urma_post_jetty_send_wr p j.raw
          (rw_memory is_read peer remote_va total local_sges user_ctx signaled)
    lift (check_status st what)

  unfoldable pub post_read_signaled : Jetty → Peer → ℕ → List LocalSge → ℕ → Bool → Io (Unit {0})
  unfolding post_rw
  post_read_signaled = post_rw true "urma_post_jetty_send_wr(READ)"

  unfoldable pub post_read : Jetty → Peer → ℕ → List LocalSge → ℕ → Io (Unit {0})
  unfolding post_read_signaled
  post_read j peer remote_va local_list user_ctx =
      post_read_signaled j peer remote_va local_list user_ctx true

  unfoldable pub post_write_signaled : Jetty → Peer → ℕ → List LocalSge → ℕ → Bool → Io (Unit {0})
  unfolding post_rw
  post_write_signaled = post_rw false "urma_post_jetty_send_wr(WRITE)"

  unfoldable pub post_write : Jetty → Peer → ℕ → List LocalSge → ℕ → Io (Unit {0})
  unfolding post_write_signaled
  post_write j peer remote_va local_list user_ctx =
      post_write_signaled j peer remote_va local_list user_ctx true

  unfoldable pub post_read_list : Jetty → Peer → List Req → Io (Unit {0})
  unfolding list_memory check_status
  post_read_list j peer [] = fail (invalid (text "empty READ list"))
  post_read_list j peer (r ∷ reqs) = do
    st ← urma_post_jetty_send_wr p j.raw (list_memory true peer (r ∷ reqs))
    lift (check_status st "urma_post_jetty_send_wr(READ list)")

  unfoldable pub post_write_list : Jetty → Peer → List Req → Io (Unit {0})
  unfolding list_memory check_status
  post_write_list j peer [] = fail (invalid (text "empty WRITE list"))
  post_write_list j peer (r ∷ reqs) = do
    st ← urma_post_jetty_send_wr p j.raw (list_memory false peer (r ∷ reqs))
    lift (check_status st "urma_post_jetty_send_wr(WRITE list)")

  -- A SEND has only a source; its flag asks for a completion record and no order.
  unfoldable pub post_send : Jetty → Peer → List LocalSge → ℕ → Io (Unit {0})
  unfolding check_local check_status
  post_send j peer local_list user_ctx = do
    sges ← lift (check_local j local_list)
    st ← urma_post_jetty_send_wr p j.raw (record {
      remote_sges = [];
      local_sges = sges;
      wrs =
          record {
            opcode = urma_opc_send;
            flag = urma_jfs_wr_flag_complete_enable;
            tjetty = peer.tjetty;
            user_ctx = user_ctx;
            rw = record default_rw { src = local_sg sges };
            next = none;
          }
          ∷ [];
    })
    lift (check_status st "urma_post_jetty_send_wr(SEND)")

  -- A receive request: `src` is the list of landing windows. It stands here in the same shape,
  -- with the fields that `urma_jfr_wr_t` lacks at 0.
  unfoldable pub post_recv : Jetty → List LocalSge → ℕ → Io (Unit {0})
  unfolding check_local check_status
  post_recv j local_list user_ctx = do
    sges ← lift (check_local j local_list)
    st ← urma_post_jfr_wr p j.jfr (record {
      remote_sges = [];
      local_sges = sges;
      wrs =
          record {
            opcode = 0;
            flag = 0;
            tjetty = 0;
            user_ctx = user_ctx;
            rw = record default_rw { src = local_sg sges };
            next = none;
          }
          ∷ [];
    })
    lift (check_status st "urma_post_jfr_wr")
