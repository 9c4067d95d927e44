-- ===== src/Bench/Pass/Loop.antt =====
-- The loops of a pass, on the world.
use urma_rs.Base.{
  ℕ, zero, suc, ◌+◌, ◌-◌, ◌%◌, ◌^◌, ◌<◌, ◌≤◌, ◌≡◌, refl, sym, subst, Bool, true, false, String,
  List, [], ◌∷◌, length, Bool-cases, inl, inr, arith,
}
use native.Mathlib.Nat.{mod-lt}
use urma_rs.Error.{Ensures, Result, ok, err, invalid, text}
use urma_rs.Ffi.Liburma.{Liburma}
use urma_rs.Ffi.World.{World}
use urma_rs.Ffi.Io.{Io, ◌>>=◌, ◌>>◌, continue, pure, lift}
use urma_rs.Urma.Jetty.{Jetty}
use urma_rs.Urma.Peer.{Peer}
use urma_rs.Urma.Post.{Req, post_read_list, post_write_list}
use urma_rs.Bench.Ops.{BwOp, BwStop, bw_op_jetty}
use urma_rs.Bench.Pass.{BwCtx, Pass, tick, may_post, fill, at, chunk, post_by, post_chunk, post_all}
use urma_rs.Bench.Pass.Invariant.{Counts}
use urma_rs.Bench.Pass.Posting.{Fills, fill-Fills, tick-Counts}

module _ {A B : Type 0} (P : A → Type 0) (Q : B → Type 0) where
  pub continue-Ensures :
      (r : Result A) (f : A → Io B) (w : World)
      → Ensures P r
      → ((x : A) (w' : World) → P x → Ensures Q (f x w').0)
      → Ensures Q (continue r f w).0
  continue-Ensures (ok x) f w h k = k x w h
  continue-Ensures (err e) f w h k = tt

  pub bind-Ensures :
      (m : Io A) (f : A → Io B) (w : World)
      → Ensures P (m w).0
      → ((x : A) (w' : World) → P x → Ensures Q (f x w').0)
      → Ensures Q ((m >>= f) w).0
  bind-Ensures m f w h k = continue-Ensures (m w).0 f (m w).1 h k

pub any-Ensures : {A : Type 0} (r : Result A) → Ensures (λ x. Unit {0}) r
any-Ensures (ok x) = tt
any-Ensures (err e) = tt

-- The number of fresh ops that a list must have.
abbrev IsPosted : List Req → Unit {0} → Type 0
IsPosted [] u = ⊥
IsPosted (r ∷ reqs) u = Unit

-- The message of a list that is empty.
abbrev pub empty_list : BwOp → String
empty_list BwOp.read = "empty READ list"
empty_list BwOp.write = "empty WRITE list"

module _ (p : Liburma) (bw : BwCtx) (size depth cq_mod : ℕ) (stop : BwStop) (timed : Bool)
    (late : ℕ → Bool) where
  -- An empty list is refused.
  post_by-IsPosted :
      (o : BwOp) (jetty : Jetty) (peer : Peer) (reqs : List Req) (w : World)
      → Ensures
          (IsPosted reqs)
          (post_by bw size depth cq_mod stop timed late p o jetty peer reqs w).0
  unfolding post_by post_read_list post_write_list
  post_by-IsPosted BwOp.read jetty peer [] w = tt
  post_by-IsPosted BwOp.write jetty peer [] w = tt
  post_by-IsPosted o jetty peer (r ∷ reqs) w =
      any-Ensures (post_by bw size depth cq_mod stop timed late p o jetty peer (r ∷ reqs) w).0

  post_chunk-IsPosted :
      (j : ℕ) (reqs : List Req) (w : World)
      → Ensures (IsPosted reqs) (post_chunk bw size depth cq_mod stop timed late p j reqs w).0
  unfolding post_chunk
  post_chunk-IsPosted j reqs w =
      bind-Ensures (λ x. Unit {0}) (IsPosted reqs) (lift (at bw.jetties j)) _ w
        (any-Ensures (at bw.jetties j))
        (λ jetty w1 u.
          bind-Ensures (λ x. Unit {0}) (IsPosted reqs) (lift (at bw.peers j)) _ w1
            (any-Ensures (at bw.peers j)) (λ peer w2 u'. post_by-IsPosted bw.op jetty peer reqs w2))

  module _ (a : 0 < length bw.jetties) (b : 0 < bw.post_list) (small : depth < 2 ^ 64)
      (some_size : 0 < size) (fits : size ≤ bw.landing.len) (narrow : size < 2 ^ 32)
      (wide : bw.landing.len < 2 ^ 64) where
    abbrev pub Runs : Pass → Type 0
    Runs = Counts (length bw.jetties) bw.post_list depth stop

    -- More was posted, and nothing else has changed.
    abbrev Gains : Pass → Pass → Type 0
    Gains s s' = Runs s' × (s.next < s'.next) × (s'.done_total ≡ s.done_total)

    abbrev Filled : Pass → Result (List Req × Pass) → Type 0
    Filled s r =
        Fills bw size depth cq_mod stop timed late a b small some_size fits narrow wide
          (bw.post_list - s.next % bw.post_list) s r

    -- What follows the filling.
    posted-Gains :
        (s : Pass) (j : ℕ) (w : World) (r : Result (List Req × Pass))
        → Filled s r
        → Ensures
            (Gains s)
            (continue r
              (λ (x : List Req × Pass).
                post_chunk bw size depth cq_mod stop timed late p j x.0 >> pure x.1)
              w).0
    posted-Gains s j w (err e) h = absurd h
    posted-Gains s j w (ok ([], s')) (c, rs, n, t, l) =
        bind-Ensures (IsPosted []) (Gains s)
          (post_chunk bw size depth cq_mod stop timed late p j []) (λ u. pure s') w
          (post_chunk-IsPosted j [] w) (λ u w' h. absurd h)
    posted-Gains s j w (ok (q ∷ reqs, s')) (c, rs, n, t, l) =
        bind-Ensures (IsPosted (q ∷ reqs)) (Gains s)
          (post_chunk bw size depth cq_mod stop timed late p j (q ∷ reqs)) (λ u. pure s') w
          (post_chunk-IsPosted j (q ∷ reqs) w) (λ u w' h. (c, omega (arith, n), t))

    chunk-Gains :
        (s : Pass) (w : World)
        → Runs s
        → Ensures (Gains s) (chunk bw size depth cq_mod stop timed late p s w).0
    unfolding chunk
    chunk-Gains s w c =
        let rem = bw.post_list - s.next % bw.post_list in
        let j = bw_op_jetty s.next (length bw.jetties) bw.post_list in
        posted-Gains s j w (fill bw size depth cq_mod stop timed late rem j s) (
          fill-Fills bw size depth cq_mod stop timed late a b small some_size fits narrow wide rem j
            s c (λ k. refl) (omega (arith, mod-lt s.next {m = bw.post_list} b)))

    -- The posting ends at a reading at which no more may be posted: the stop has come, or `depth`
    -- ops are in flight.
    abbrev pub Ends : ℕ → Pass → Type 0
    Ends total s =
        Runs s
        × (s.done_total ≡ total)
        × ((t : Pass) × (s ≡ tick t) × (may_post bw size depth cq_mod stop timed late t ≡ false))

    post_all_stop :
        (fuel : ℕ) (s : Pass)
        → may_post bw size depth cq_mod stop timed late s ≡ false
        → post_all bw size depth cq_mod stop timed late p (suc fuel) s ≡ pure (tick s)
    unfolding post_all
    post_all_stop fuel s e = rw (e, post_all) refl

    post_all_step :
        (fuel : ℕ) (s : Pass)
        → may_post bw size depth cq_mod stop timed late s ≡ true
        → post_all bw size depth cq_mod stop timed late p (suc fuel) s ≡ (
            chunk bw size depth cq_mod stop timed late p (tick s)
            >>= post_all bw size depth cq_mod stop timed late p fuel)
    unfolding post_all
    post_all_step fuel s e = rw (e, post_all) refl

    -- For at least one jetty, turns of at least one op, a depth below 2^64, and a size that is not
    -- 0, below 2^32 and no larger than the landing buffer, itself below 2^64, from right counters
    -- and with fuel for each free place of the pipeline and one more, the posting loop, unless it
    -- fails, runs to a reading of the clock at which no more may be posted, with right counters and
    -- an unchanged number of ops done.
    pub post_all-Ends :
        (fuel : ℕ) (s : Pass) (w : World)
        → Runs s
        → s.done_total + depth < s.next + fuel
        → Ensures (Ends s.done_total) (post_all bw size depth cq_mod stop timed late p fuel s w).0
    unfolding post_all
    post_all-Ends zero s w c h = absurd (omega (arith, h, c.flight))
    post_all-Ends (suc fuel) s w c h =
        let P = λ (m : Io Pass). Ensures (Ends s.done_total) (m w).0 in
        let c' = tick-Counts bw size depth cq_mod stop timed late a b small s c in
        elim (Bool-cases (may_post bw size depth cq_mod stop timed late s)) [
          | inr e ↦ subst P (sym (post_all_stop fuel s e)) (c', refl, (s, refl, e))
          | inl e ↦ subst P (sym (post_all_step fuel s e)) (
              bind-Ensures (Gains (tick s)) (Ends s.done_total)
                (chunk bw size depth cq_mod stop timed late p (tick s))
                (post_all bw size depth cq_mod stop timed late p fuel) w (chunk-Gains (tick s) w c')
                (λ t w' g.
                  subst
                    (λ (n : ℕ).
                      Ensures (Ends n)
                        (post_all bw size depth cq_mod stop timed late p fuel t w').0)
                    g.2 (post_all-Ends fuel t w' g.0 (omega (arith, h, g.1, g.2)))))
        ]

  post_by-empty :
      (o : BwOp) (jetty : Jetty) (peer : Peer) (w : World)
      → post_by bw size depth cq_mod stop timed late p o jetty peer [] w
        ≡ (err (invalid (text (empty_list o))), w)
  unfolding post_by post_read_list post_write_list
  post_by-empty BwOp.read jetty peer w = refl
  post_by-empty BwOp.write jetty peer w = refl

  fill-empty :
      (rem j : ℕ) (s : Pass)
      → 0 < rem
      → may_post bw size depth cq_mod stop timed late s ≡ false
      → fill bw size depth cq_mod stop timed late rem j s ≡ ok ([], tick s)
  unfolding fill
  fill-empty zero j s h e = absurd (omega (arith, h))
  fill-empty (suc rem) j s h e = ground arith

  -- Where the deadline passes between the test of the outer loop and that of the inner one, the
  -- chunk makes no call and fails on its empty list.
  pub chunk-late :
      (s : Pass) (w : World) (jetty : Jetty) (peer : Peer)
      → 0 < bw.post_list
      → at bw.jetties (bw_op_jetty s.next (length bw.jetties) bw.post_list) ≡ ok jetty
      → at bw.peers (bw_op_jetty s.next (length bw.jetties) bw.post_list) ≡ ok peer
      → may_post bw size depth cq_mod stop timed late s ≡ false
      → chunk bw size depth cq_mod stop timed late p s w
        ≡ (err (invalid (text (empty_list bw.op))), w)
  unfolding chunk post_chunk
  chunk-late s w jetty peer b j q h =
      let some_left : 0 < bw.post_list - s.next % bw.post_list =
        omega (arith, mod-lt s.next {m = bw.post_list} b) in
      rw
        (
          fill-empty (bw.post_list - s.next % bw.post_list)
              (bw_op_jetty s.next (length bw.jetties) bw.post_list) s some_left h,
          j,
          q,
          post_by-empty bw.op jetty peer w,
        )
        refl
