-- ===== src/Bench/Run/Serial.antt =====
-- The warm-up of a bandwidth run.
use urma_rs.Base.{ℕ, suc, ltb, ◌≡◌, refl, Bool, true, false, arith}
use urma_rs.Ffi.Liburma.{Liburma}
use urma_rs.Ffi.World.{World}
use urma_rs.Ffi.Io.{◌>>=◌}
use urma_rs.Bench.Ops.{BwStop}
use urma_rs.Bench.Pass.{BwCtx, bw_pass}
use urma_rs.Bench.Run.OneSided.{run_bw_iters, when_passed, is_positive}

-- With a duration there is no pass for warming up, whatever the arguments; with a number of ops
-- there is one before the timed pass exactly where that number is not 0.
pub run_bw_iters-warmup :
    (p : Liburma) (bw : BwCtx) (size depth cq_mod warmup iters : ℕ) (late hung : ℕ → Bool)
    (left : ℕ) (w : World)
    → (run_bw_iters p bw size depth cq_mod warmup iters true late hung left w
        ≡ bw_pass bw size depth cq_mod BwStop.until true late p hung left w)
      × (run_bw_iters p bw size depth cq_mod (suc warmup) iters false late hung left w
          ≡ (bw_pass bw size depth cq_mod (BwStop.ops (suc warmup)) false late p hung left
                >>= when_passed
                    (bw_pass bw size depth cq_mod (BwStop.ops iters) true late p hung left))
              w)
      × (run_bw_iters p bw size depth cq_mod 0 iters false late hung left w
          ≡ bw_pass bw size depth cq_mod (BwStop.ops iters) true late p hung left w)
unfolding run_bw_iters is_positive
run_bw_iters-warmup p bw size depth cq_mod warmup iters late hung left w =
    let e : ltb 0 (suc warmup) ≡ true = ground arith in
    (refl, rw (e, run_bw_iters, is_positive) refl, refl)
