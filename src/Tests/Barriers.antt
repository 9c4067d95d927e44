-- ===== src/Tests/Barriers.antt =====
-- A master and two clients, from the first register message to the end.
use urma_rs.Base.{
  some, get_elem?, ℕ, zero, suc, ◌<◌, ◌≤◌, ◌≡◌, refl, ltb, ◌==◌, Bool, true, false, List, [], ◌∷◌,
  All, if◌then◌else◌, arith,
}
use urma_rs.Lookup.Master.{RegisterMsg, OwnerInfo, reserve, push, owner_info}
use urma_rs.Lookup.System.{
  Barrier, IsBarrier, leaders, Server, System, Step, Reach, start, next, registers, pushes,
  calls_ready, gets_directory, calls_done, finishes, fails, m_ready, m_done, finished, at_done,
  return,
}
use urma_rs.Lookup.System.Stages.{reached}
use urma_rs.Lookup.System.Promises.{IsDirectory, sent-IsDirectory, finished-at_done}
use urma_rs.Lookup.System.Progress.{Reach-progress, Reach-shutdown}
use urma_rs.Lookup.System.Stuck.{Reach-stuck}
use urma_rs.Common.Desc.{default_desc}

-- All wait for all, and the first to return is the leader.
abbrev rendezvous : Barrier
rendezvous = record { released = λ n k. if ltb k n then 0 else n; is_leader = λ n k. k == 0 }

leaders_of : (n k : ℕ) → leaders rendezvous n (suc k) ≡ 1
leaders_of n zero = refl
leaders_of n (suc k) = ground (arith, leaders_of n k)

one_leader : (n : ℕ) → 0 < n → leaders rendezvous n n ≡ 1
one_leader zero h = absurd (omega arith)
one_leader (suc n) h = leaders_of (suc n) n

rendezvous-IsBarrier : IsBarrier rendezvous
rendezvous-IsBarrier = record {
  blocks = λ n k h. ground arith;
  opens = λ n. ground arith;
  one_leader = one_leader;
}

abbrev reg : ℕ → RegisterMsg
reg n = record { name = 65 ∷ []; record_cnt = n; desc = default_desc; data_port = 0 }

abbrev entries : List OwnerInfo
entries = owner_info (reg 3) [] 0 ∷ owner_info (reg 2) [] 3 ∷ []

-- The master with both entries and so many calls and returns of the two barriers.
abbrev at_barriers : (ready ready_back finish finish_back : ℕ) → Bool → Server
at_barriers ready ready_back finish finish_back down = record {
  state = record { clients = entries; next_rid = 5; pending = [] };
  ready = record { called = ready; returned = ready_back };
  done = record { called = finish; returned = finish_back };
  shutdown = down;
}

abbrev active : List Bool
active = false ∷ false ∷ []

-- Both clients have the ack.
abbrev both_acked : System
both_acked = record {
  server = at_barriers 0 0 0 0 false;
  stages = 2 ∷ 2 ∷ [];
  gone = active;
  sent = [];
}

-- Both have the directory and wait for the end.
abbrev both_wait : System
both_wait = record {
  server = at_barriers 2 2 2 0 false;
  stages = 5 ∷ 5 ∷ [];
  gone = active;
  sent = entries ∷ entries ∷ [];
}

-- The first client is over.
abbrev one_over : System
one_over = record {
  server = at_barriers 2 2 2 1 true;
  stages = 6 ∷ 5 ∷ [];
  gone = active;
  sent = entries ∷ entries ∷ [];
}

both_acked-Reach : Reach rendezvous 2 both_acked
unfolding reserve push
both_acked-Reach =
    next
      (next
        (next (next start (registers 0 (reg 3) [] _ refl refl (omega arith) refl refl))
          (registers 1 (reg 2) [] _ refl refl (omega arith) refl refl))
        (pushes 0 1 0 _ refl refl refl))
      (pushes 1 0 3 _ refl refl refl)

-- Both have the directory.
abbrev both_told : System
both_told = record {
  server = at_barriers 2 2 0 0 false;
  stages = 4 ∷ 4 ∷ [];
  gone = active;
  sent = entries ∷ entries ∷ [];
}

-- Both ask, and both are told.
both_told-Reach : Reach rendezvous 2 both_told
unfolding m_ready return
both_told-Reach =
    next
      (next
        {t = record {
          server = at_barriers 2 1 0 0 false;
          stages = 3 ∷ 4 ∷ [];
          gone = active;
          sent = entries ∷ [];
        }}
        (next
          {t = record {
            server = at_barriers 2 0 0 0 false;
            stages = 3 ∷ 3 ∷ [];
            gone = active;
            sent = [];
          }}
          (next
            {t = record {
              server = at_barriers 1 0 0 0 false;
              stages = 3 ∷ 2 ∷ [];
              gone = active;
              sent = [];
            }}
            both_acked-Reach (calls_ready 0 refl refl refl))
          (calls_ready 1 refl refl refl))
        (gets_directory 1 (at_barriers 2 1 0 0 false) entries refl refl refl))
      (gets_directory 0 (at_barriers 2 2 0 0 false) entries refl refl refl)

both_wait-Reach : Reach rendezvous 2 both_wait
both_wait-Reach =
    next
      (next
        {t = record {
          server = at_barriers 2 2 1 0 false;
          stages = 5 ∷ 4 ∷ [];
          gone = active;
          sent = entries ∷ entries ∷ [];
        }}
        both_told-Reach (calls_done 0 refl refl refl))
      (calls_done 1 refl refl refl)

-- The second client fails in a read, and the first one waits for the end.
abbrev one_gone : System
one_gone = record {
  server = at_barriers 2 2 1 0 false;
  stages = 5 ∷ 4 ∷ [];
  gone = false ∷ true ∷ [];
  sent = entries ∷ entries ∷ [];
}

one_gone-Reach : Reach rendezvous 2 one_gone
one_gone-Reach =
    next
      (next
        {t = record {
          server = at_barriers 2 2 0 0 false;
          stages = 4 ∷ 4 ∷ [];
          gone = false ∷ true ∷ [];
          sent = entries ∷ entries ∷ [];
        }}
        both_told-Reach (fails 1 4 refl refl refl refl))
      (calls_done 0 refl refl refl)

one_over-Reach : Reach rendezvous 2 one_over
unfolding m_done return
one_over-Reach = next both_wait-Reach (finishes 0 (at_barriers 2 2 2 1 true) refl refl refl)

sent-IsDirectory_example :
    All (λ d. (d ≡ both_wait.server.state.clients) × IsDirectory 2 4 d) both_wait.sent
sent-IsDirectory_example = sent-IsDirectory rendezvous rendezvous-IsBarrier 2 4 both_wait-Reach

finished-at_done_example : at_done ≤ 5
finished-at_done_example =
    finished-at_done rendezvous rendezvous-IsBarrier 2 0 1 5 one_over-Reach refl refl

active_below : (i : ℕ) → i < 2 → get_elem? active i ≡ some false
active_below zero h = refl
active_below (suc zero) h = refl
active_below (suc (suc i)) h = absurd (omega arith)

Reach-progress_example : (t : System) × Step rendezvous 2 both_wait t × (t.gone ≡ both_wait.gone)
Reach-progress_example =
    Reach-progress rendezvous rendezvous-IsBarrier 2 both_wait-Reach active_below refl (omega arith)

one_gone-blocks : (reached finished one_gone.stages ≡ 0) × (one_gone.server.shutdown ≡ false)
one_gone-blocks = Reach-stuck rendezvous rendezvous-IsBarrier 2 1 one_gone-Reach refl

Reach-shutdown_example :
    (one_over.server.shutdown ≡ true → reached at_done one_over.stages ≡ 2)
    × (reached finished one_over.stages ≡ 2 → one_over.server.shutdown ≡ true)
Reach-shutdown_example =
    Reach-shutdown rendezvous rendezvous-IsBarrier 2 (omega arith) one_over-Reach
