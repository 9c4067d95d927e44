-- ===== src/Urma/Cq/Laws.antt =====
-- What the polls of a completion queue return.
use urma_rs.Base.{
  ℕ, zero, suc, pos, ◌+◌, ◌==◌, ltb, is_negative, ◌≤◌, ◌<◌, ◌≡◌, ◌≢◌, refl, min, ◌&&◌, List, [],
  ◌∷◌, some, length, get_elem?, if◌then◌else◌, arith,
}
use urma_rs.Error.{Result, ok, err, status, bad_completion, poll_timeout}
use urma_rs.Ffi.Structs.{UrmaCr}
use urma_rs.Ffi.Liburma.{Liburma, Event, Polled}
use urma_rs.Ffi.World.{World, log}
use urma_rs.Urma.Cq.{
  Completion, is_success, completion, cq_jfc, wait_loop, wait_read, poll_batch, store,
  poll_interval, poll_retries,
}

-- What an answer other than "none yet" means for a caller that waits for `expected`: the record
-- itself if it is a success with that user_ctx, and an error else.
abbrev pub verdict : ℕ → Polled → Result Completion
verdict expected polled =
    let c = completion (polled.cr 0) in
    if is_negative polled.n
    then err (status polled.n "urma_poll_jfc")
    else if is_success c && c.user_ctx == expected
    then ok c
    else err (bad_completion c.status c.user_ctx)

module _ (p : Liburma) (cq : ℕ) where
  abbrev pub answer : World → Polled
  answer w = p.urma_poll_jfc w.trace (cq_jfc w cq) 1

  -- The world after `k` rounds that found nothing, each of them a poll and a pause.
  abbrev pub idle : ℕ → World → World
  idle zero w = w
  idle (suc k) w =
      idle k
        (log (log w (Event.urma_poll_jfc (cq_jfc w cq) 1 (answer w).n)) (Event.sleep poll_interval))

  -- The first `k` polls from `w` on answer that there is no record yet.
  abbrev pub IsEmpty : ℕ → World → Type 0
  IsEmpty zero w = Unit
  IsEmpty (suc k) w =
      ((answer w).n ≡ pos 0)
      × IsEmpty k (
          log (log w (Event.urma_poll_jfc (cq_jfc w cq) 1 (answer w).n))
            (Event.sleep poll_interval))

  wait_loop-answer :
      (expected rounds k : ℕ) (w : World)
      → k < rounds
      → IsEmpty k w
      → (answer (idle k w)).n ≢ pos 0
      → (wait_loop p rounds cq expected w).0 ≡ verdict expected (answer (idle k w))
  unfolding wait_loop
  wait_loop-answer expected zero k w h quiet comes = absurd (omega arith)
  wait_loop-answer expected (suc rounds) zero w h quiet comes = ground arith
  wait_loop-answer expected (suc rounds) (suc k) w h quiet comes =
      ground (arith, wait_loop-answer expected rounds k (idle 1 w) (omega arith) quiet.1 comes)

  wait_loop-timeout :
      (expected rounds : ℕ) (w : World)
      → IsEmpty rounds w
      → wait_loop p rounds cq expected w ≡ (err (poll_timeout expected), idle rounds w)
  unfolding wait_loop
  wait_loop-timeout expected zero w quiet = refl
  wait_loop-timeout expected (suc rounds) w quiet =
      ground (arith, wait_loop-timeout expected rounds (idle 1 w) quiet.1)

  -- If the first k < 100 polls find nothing and the next one answers, wait_read returns what that
  -- answer means: the record if it is a success with the expected user_ctx, and otherwise the error
  -- for it.
  pub wait_read-answer :
      (expected k : ℕ) (w : World)
      → k < poll_retries
      → IsEmpty k w
      → (answer (idle k w)).n ≢ pos 0
      → (wait_read p cq expected w).0 ≡ verdict expected (answer (idle k w))
  unfolding wait_read
  wait_read-answer expected k w = wait_loop-answer expected poll_retries k w

  -- If 100 polls find nothing, wait_read reports a timeout for the expected user_ctx after exactly
  -- these polls, with a pause after each.
  pub wait_read-timeout :
      (expected : ℕ) (w : World)
      → IsEmpty poll_retries w
      → wait_read p cq expected w ≡ (err (poll_timeout expected), idle poll_retries w)
  unfolding wait_read
  wait_read-timeout expected w = wait_loop-timeout expected poll_retries w

module _ (cr : ℕ → UrmaCr) where
  length-store : (limit i : ℕ) (out : List Completion) → length (store limit i cr out) ≡ length out
  unfolding store
  length-store limit i [] = refl
  length-store zero i (c ∷ out) = refl
  length-store (suc limit) i (c ∷ out) = omega (arith, length-store limit (suc i) out)

  get_elem?-store :
      (limit i : ℕ) (out : List Completion) (j : ℕ)
      → j < length out
      → get_elem? (store limit i cr out) j
        ≡ (if ltb j limit then some (completion (cr (i + j))) else get_elem? out j)
  unfolding store
  get_elem?-store limit i [] j h = absurd (omega arith)
  get_elem?-store zero i (c ∷ out) j h = ground arith
  get_elem?-store (suc limit) i (c ∷ out) zero h =
      let e : i + 0 ≡ i = omega arith in rw e (ground arith)
  get_elem?-store (suc limit) i (c ∷ out) (suc j) h =
      let e : i + suc j ≡ suc i + j = omega arith in
      ground (arith, e, get_elem?-store limit (suc i) out j (omega arith))

-- If the library answers m records for a slice that is not empty and no more than it was asked for,
-- poll_batch returns m, at most 64 and at most the length of the slice, stores record j in element
-- j for each j below m, and leaves the rest and the length alone.
pub poll_batch-stores :
    (p : Liburma) (cq : ℕ) (out : List Completion) (m : ℕ) (w : World)
    → out ≢ []
    → let want = min (length out) 64 in
      let polled = p.urma_poll_jfc w.trace (cq_jfc w cq) want in
      polled.n ≡ pos m
      → m ≤ want
      → (out' : List Completion) × ((poll_batch p cq out w).0 ≡ ok (m, out'))
        × (m ≤ 64)
        × (m ≤ length out)
        × (length out' ≡ length out)
        × ((j : ℕ)
            → j < length out
            → get_elem? out' j
              ≡ (if ltb j m then some (completion (polled.cr j)) else get_elem? out j))
unfolding poll_batch
poll_batch-stores p cq [] m w some_room answered fits = absurd (some_room refl)
poll_batch-stores p cq (c ∷ out) m w some_room answered fits =
    let polled = p.urma_poll_jfc w.trace (cq_jfc w cq) (min (length (c ∷ out)) 64) in
    let limit : min m 64 ≡ m = omega arith in
    (
      store m 0 polled.cr (c ∷ out),
      ground (arith, answered, limit),
      omega arith,
      omega arith,
      length-store polled.cr m 0 (c ∷ out),
      λ j h.
          let e : 0 + j ≡ j = omega arith in
          ground (arith, e, get_elem?-store polled.cr m 0 (c ∷ out) j h),
    )
