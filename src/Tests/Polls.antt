-- ===== src/Tests/Polls.antt =====
-- Polls of a completion queue.
use urma_rs.Base.{
  arith, ℕ, zero, suc, ◌≡◌, refl, pos, List, [], ◌∷◌, some, length, get_elem?, ltb, if◌then◌else◌,
  ◌<◌, ◌≤◌,
}
use urma_rs.Error.{ok}
use urma_rs.Ffi.World.{World}
use urma_rs.Urma.Cq.{Completion, wait_read, poll_batch, completion}
use urma_rs.Urma.Cq.Laws.{IsEmpty, idle, answer, verdict, wait_read-answer, poll_batch-stores}
use urma_rs.Tests.Library.{working, silent, busy, opened}

-- The record is there at the third poll.
wait_read-answer_example :
    (wait_read working 0 7 opened).0 ≡ verdict 7 (answer working 0 (idle working 0 2 opened))
wait_read-answer_example =
    wait_read-answer working 0 7 2 opened (omega arith) (refl, (refl, tt)) (λ e. cc)

silent-IsEmpty : (k : ℕ) (w : World) → IsEmpty silent 0 k w
silent-IsEmpty zero w = tt
silent-IsEmpty (suc k) w = (refl, silent-IsEmpty k (idle silent 0 1 w))

abbrev blank : Completion
blank = record { status = pos 0; user_ctx = 0; completion_len = 0 }

poll_batch-stores_example :
    (out' : List Completion) × ((poll_batch busy 0 (blank ∷ blank ∷ blank ∷ []) opened).0
      ≡ ok (2, out'))
    × (2 ≤ 64)
    × (2 ≤ 3)
    × (length out' ≡ 3)
    × ((j : ℕ)
        → j < 3
        → get_elem? out' j ≡ (
            if ltb j 2
            then some (completion (record { status = pos 0; user_ctx = j; completion_len = 64 }))
            else get_elem? (blank ∷ blank ∷ blank ∷ []) j))
poll_batch-stores_example =
    poll_batch-stores busy 0 (blank ∷ blank ∷ blank ∷ []) 2 opened (λ e. cc) refl (omega arith)
