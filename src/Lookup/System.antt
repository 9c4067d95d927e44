-- ===== src/Lookup/System.antt =====
-- examples/urma_lookup.rs: `m_ready`, `m_done` and `run_master`, with as many clients as the master
-- expects. `tokio::sync::Barrier` is not part of the repository: it is a parameter.
pub mod Stages
pub mod Counts
pub mod Barriers
pub mod Promises
pub mod Halted
pub mod Progress
pub mod Stuck
use urma_rs.Base.{
  ℕ, zero, suc, ◌<◌, ◌≤◌, ltb, leb, ◌==◌, ◌||◌, Bool, false, List, [], ◌∷◌, Option, none, some, ◌≡◌,
  get_elem?, replicate, if◌then◌else◌, ◌+◌, ◌^◌, true, length, set,
}
use urma_rs.Error.{Result, ok, err, invalid, text}
use urma_rs.Lookup.Master.{
  OwnerInfo, RegisterMsg, MasterState, init_master, reserve, push, max_clients,
}

-- A barrier for `n` tasks. `released n k` tells how many calls of `wait` may have returned once `k`
-- have been made, and `is_leader n k` whether the call that returns behind `k` others is the leader.
pub record Barrier : Type 0 where
  pub released : ℕ → ℕ → ℕ
  pub is_leader : ℕ → ℕ → Bool

-- The leaders among the first `k` calls that return.
abbrev pub leaders : Barrier → ℕ → ℕ → ℕ
leaders b n zero = 0
leaders b n (suc k) = leaders b n k + (if b.is_leader n k then 1 else 0)

-- What the documentation of tokio says of the first round: no call returns before the n-th is made,
-- all of them may return then, and one of them is the leader.
pub record IsBarrier (b : Barrier) : Type 0 where
  pub blocks : (n k : ℕ) → k < n → b.released n k ≡ 0
  pub opens : (n : ℕ) → b.released n n ≡ n
  pub one_leader : (n : ℕ) → 0 < n → leaders b n n ≡ 1

-- One use of a barrier: the calls of `wait` made, and those that have returned.
pub record Waits : Type 0 where
  pub called : ℕ
  pub returned : ℕ

pub record Server : Type 0 where
  pub state : MasterState
  pub ready : Waits
  pub done : Waits
  pub shutdown : Bool

-- The guard of `run_master`.
unfoldable pub check_expect : ℕ → Result (Unit {0})
check_expect expect =
    if expect == 0 || ltb max_clients expect
    then err (invalid (text "expect must be in [1, 16]"))
    else ok tt

abbrev pub no_waits : Waits
no_waits = record { called = 0; returned = 0 }

abbrev pub init_server : Server
init_server = record { state = init_master; ready = no_waits; done = no_waits; shutdown = false }

-- `wait` up to the point where it blocks.
abbrev pub call : Waits → Waits
call w = record w { called = suc w.called }

-- The return of a `wait`, where the barrier lets one through, and whether it is the leader's.
unfoldable pub return : Barrier → ℕ → Waits → Option (Waits × Bool)
return b n w =
    if ltb w.returned (b.released n w.called)
    then some (record w { returned = suc w.returned }, b.is_leader n w.returned)
    else none

-- `m_ready` behind its barrier: the directory is all entries that stand there at this point.
unfoldable pub m_ready : Barrier → ℕ → Server → Option (Server × List OwnerInfo)
unfolding return
m_ready b n srv = elim (return b n srv.ready) [
  | none ↦ none
  | some (w, leader) ↦ some (record srv { ready = w }, srv.state.clients)
]

-- `m_done` behind its barrier: the leader shuts the server down.
unfoldable pub m_done : Barrier → ℕ → Server → Option Server
unfolding return
m_done b n srv = elim (return b n srv.done) [
  | none ↦ none
  | some (w, leader) ↦ some (record srv { done = w; shutdown = leader || srv.shutdown })
]

-- How far a run of `run_client` has come: its register handler stands between its two steps, it
-- has the ack, it waits for the directory, it reads records, it waits for the end, it is over.
abbrev pub registering : ℕ
registering = 1

abbrev pub acked : ℕ
acked = 2

abbrev pub at_ready : ℕ
at_ready = 3

abbrev pub reading : ℕ
reading = 4

abbrev pub at_done : ℕ
at_done = 5

abbrev pub finished : ℕ
finished = 6

-- Where the code of a client runs between its requests, and may fail: before it has registered,
-- while it writes its records, and while it imports and reads.
abbrev pub at_work : ℕ → Bool
at_work stage = stage == 0 || (stage == acked || stage == reading)

-- The master and its clients; `gone` tells which of them have failed, and `sent` lists the
-- directories that were sent.
pub record System : Type 0 where
  pub server : Server
  pub stages : List ℕ
  pub gone : List Bool
  pub sent : List (List OwnerInfo)

abbrev pub init_system : ℕ → System
init_system n = record {
  server = init_server;
  stages = replicate n 0;
  gone = replicate n false;
  sent = [];
}

-- One step of some client or of a handler at work for it. A client that fails at work, on an error
-- of its transport, a missing owner, or a register message that the master refuses, leaves without
-- a word to the master and takes no further step. Requests that break while the master works on
-- them are left out, and so is a reservation that would wrap the counter. Any entry under way may
-- be pushed: that is more than the code does.
module _ (b : Barrier) (n : ℕ) where
  pub data Step (s : System) (t : System) : Type 0 where
    registers :
        (i : ℕ) (reg : RegisterMsg) (peer_addr : List ℕ) (m : MasterState)
        → get_elem? s.stages i ≡ some 0
        → get_elem? s.gone i ≡ some false
        → s.server.state.next_rid + reg.record_cnt < 2 ^ 32
        → reserve s.server.state reg peer_addr ≡ some m
        → t
          ≡ record s { server = record s.server { state = m }; stages = set s.stages i registering }
        → Step s t
    pushes :
        (i j first : ℕ) (m : MasterState)
        → get_elem? s.stages i ≡ some registering
        → push s.server.state j ≡ some (m, first)
        → t ≡ record s { server = record s.server { state = m }; stages = set s.stages i acked }
        → Step s t
    calls_ready :
        (i : ℕ)
        → get_elem? s.stages i ≡ some acked
        → get_elem? s.gone i ≡ some false
        → t ≡ record s {
          server = record s.server { ready = call s.server.ready };
          stages = set s.stages i at_ready;
        }
        → Step s t
    gets_directory :
        (i : ℕ) (srv : Server) (directory : List OwnerInfo)
        → get_elem? s.stages i ≡ some at_ready
        → m_ready b n s.server ≡ some (srv, directory)
        → t ≡ record s { server = srv; stages = set s.stages i reading; sent = directory ∷ s.sent }
        → Step s t
    calls_done :
        (i : ℕ)
        → get_elem? s.stages i ≡ some reading
        → get_elem? s.gone i ≡ some false
        → t ≡ record s {
          server = record s.server { done = call s.server.done };
          stages = set s.stages i at_done;
        }
        → Step s t
    finishes :
        (i : ℕ) (srv : Server)
        → get_elem? s.stages i ≡ some at_done
        → m_done b n s.server ≡ some srv
        → t ≡ record s { server = srv; stages = set s.stages i finished }
        → Step s t
    fails :
        (i x : ℕ)
        → get_elem? s.stages i ≡ some x
        → at_work x ≡ true
        → get_elem? s.gone i ≡ some false
        → t ≡ record s { gone = set s.gone i true }
        → Step s t

  pub data Reach : System → Type 0 where
    start : Reach (init_system n)
    next : {s t : System} → Reach s → Step s t → Reach t
