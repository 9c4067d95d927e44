-- ===== src/Pingpong/Wait.antt =====
-- What `wait_cr` returns.
use urma_rs.Base.{
  ℕ, zero, suc, pos, ◌==◌, ◌<◌, ◌≡◌, refl, ◌&&◌, not, Bool, true, false, is_negative, ◌||◌, arith,
  ◌==ℤ◌,
}
use urma_rs.Error.{err, poll_timeout}
use urma_rs.Ffi.Liburma.{Liburma, Event}
use urma_rs.Ffi.World.{World, log}
use urma_rs.Urma.Cq.{is_success, completion, cq_jfc, poll_interval, poll_retries}
use urma_rs.Urma.Cq.Laws.{answer, verdict}
use urma_rs.Pingpong.{wait_cr_loop, wait_cr}

module _ (p : Liburma) (cq expected : ℕ) where
  -- The poll of `w` finds nothing, or the success of another request.
  abbrev pub passes : World → Bool
  passes w =
      let polled = answer p cq w in
      let c = completion (polled.cr 0) in
      polled.n ==ℤ pos 0
      || (not (is_negative polled.n) && (is_success c && not (c.user_ctx == expected)))

  -- The world behind `k` such polls, each followed by a pause.
  abbrev pub waited : ℕ → World → World
  waited zero w = w
  waited (suc k) w = waited k (
      log (log w (Event.urma_poll_jfc (cq_jfc w cq) 1 (answer p cq w).n))
        (Event.sleep poll_interval))

  abbrev pub Passes : ℕ → World → Type 0
  Passes zero w = Unit
  Passes (suc k) w = (passes w ≡ true) × Passes k (waited 1 w)

  wait_cr_loop-verdict :
      (rounds k : ℕ) (w : World)
      → k < rounds
      → Passes k w
      → passes (waited k w) ≡ false
      → (wait_cr_loop p rounds cq expected w).0 ≡ verdict expected (answer p cq (waited k w))
  unfolding wait_cr_loop
  wait_cr_loop-verdict zero k w h quiet comes = absurd (omega arith)
  wait_cr_loop-verdict (suc rounds) zero w h quiet comes = ground arith
  wait_cr_loop-verdict (suc rounds) (suc k) w h quiet comes =
      ground (arith, wait_cr_loop-verdict rounds k (waited 1 w) (omega arith) quiet.1 comes)

  wait_cr_loop-timeout :
      (rounds : ℕ) (w : World)
      → Passes rounds w
      → (wait_cr_loop p rounds cq expected w).0 ≡ err (poll_timeout expected)
  unfolding wait_cr_loop
  wait_cr_loop-timeout zero w quiet = refl
  wait_cr_loop-timeout (suc rounds) w quiet =
      ground (arith, wait_cr_loop-timeout rounds (waited 1 w) quiet.1)

  -- If the first k < 100 polls find nothing or a success of another request, and the next one does
  -- not, wait_cr returns what that answer means: the record if it is the success that it expects,
  -- and otherwise the error for it.
  pub wait_cr-verdict :
      (k : ℕ) (w : World)
      → k < poll_retries
      → Passes k w
      → passes (waited k w) ≡ false
      → (wait_cr p cq expected w).0 ≡ verdict expected (answer p cq (waited k w))
  unfolding wait_cr
  wait_cr-verdict k w h quiet comes = wait_cr_loop-verdict poll_retries k w h quiet comes

  -- If none of its 100 polls is decisive, wait_cr times out.
  pub wait_cr-timeout :
      (w : World)
      → Passes poll_retries w
      → (wait_cr p cq expected w).0 ≡ err (poll_timeout expected)
  unfolding wait_cr
  wait_cr-timeout w quiet = wait_cr_loop-timeout poll_retries w quiet
