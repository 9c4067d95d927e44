-- ===== src/Bench/Pass/Exact.antt =====
-- The states that a pass reaches, and what holds when it is over.
use urma_rs.Base.{
  ℕ, zero, suc, ◌<◌, ◌≤◌, ◌^◌, ◌≡◌, refl, subst, sym, Bool, true, false, not, ◌&&◌, ltb,
  if◌then◌else◌, List, length, All, Bool-cases, inl, inr, arith,
}
use urma_rs.Error.{Ensures, ok}
use urma_rs.Ffi.Liburma.{Liburma}
use urma_rs.Ffi.World.{World}
use urma_rs.Ffi.Io.{Io, ◌>>◌, pure}
use urma_rs.Urma.Cq.{Completion}
use urma_rs.Bench.Ops.{BwStop, bw_tail_uncovered, stop_posting}
use urma_rs.Bench.Ops.Rank.{posted_on}
use urma_rs.Bench.Pass.{
  BwCtx, Pass, set, fresh, tick, in_flight, post_all, post_fence, fences, fence, reap, is_over,
}
use urma_rs.Bench.Pass.Invariant.{
  Allows, Counts, IsOfPass, fresh-Counts, done_total-next, done-exact,
}
use urma_rs.Bench.Pass.Reaping.{Reaps, reap-Reaps}
use urma_rs.Bench.Pass.Posting.{tick-Counts}
use urma_rs.Bench.Pass.Loop.{bind-Ensures, any-Ensures, post_all-Ends}

at_the_stop :
    (total : ℕ) (late : Bool) (next : ℕ)
    → next ≤ total
    → stop_posting (BwStop.ops total) late next ≡ true
    → next ≡ total
unfolding stop_posting
at_the_stop total late next h e = ground arith

module _ (p : Liburma) (bw : BwCtx) (size depth cq_mod : ℕ) (stop : BwStop) (timed : Bool)
    (late : ℕ → Bool) where
  -- The states between the steps of `bw_pass`, with any answers of the library, as long as the
  -- records are of what was posted.
  pub data Reaches : Pass → Type 0 where
    start : Reaches fresh
    posted :
        {s s' : Pass}
        → Reaches s
        → (w : World) → (post_all bw size depth cq_mod stop timed late p (suc depth) s w).0 ≡ ok s'
        → Reaches s'
    fenced :
        {s s' : Pass}
        → Reaches s
        → (w : World) → (fence bw size depth cq_mod stop timed late p s w).0 ≡ ok s'
        → Reaches s'
    ticked : {s : Pass} → Reaches s → Reaches (tick s)
    reaped :
        {s s' : Pass}
        → Reaches s
        → (crs : List Completion) → All (λ cr. IsOfPass (length bw.jetties) s cr.user_ctx) crs
        → reap bw size depth cq_mod stop timed late crs s ≡ ok s'
        → Reaches s'

  module _ (a : 0 < length bw.jetties) (b : 0 < bw.post_list) (small : depth < 2 ^ 64)
      (some_size : 0 < size) (fits : size ≤ bw.landing.len) (narrow : size < 2 ^ 32)
      (wide : bw.landing.len < 2 ^ 64) where
    abbrev Fine : Pass → Type 0
    Fine = Counts (length bw.jetties) bw.post_list depth stop

    fenced-Counts : (f : ℕ → Bool) (s : Pass) → Fine s → Fine (record s { fenced = f })
    fenced-Counts f s c = record {
      posted_eq = c.posted_eq;
      done_le = c.done_le;
      total = c.total;
      flight = c.flight;
      allowed = c.allowed;
    }

    fences_skip :
        (k j : ℕ) (s : Pass)
        → (not (s.fenced j) && bw_tail_uncovered (s.posted j) cq_mod) ≡ false
        → fences bw size depth cq_mod stop timed late p (suc k) j s
          ≡ fences bw size depth cq_mod stop timed late p k (suc j) s
    unfolding fences
    fences_skip k j s e = rw (e, fences) refl

    fences_post :
        (k j : ℕ) (s : Pass)
        → (not (s.fenced j) && bw_tail_uncovered (s.posted j) cq_mod) ≡ true
        → fences bw size depth cq_mod stop timed late p (suc k) j s ≡ (
            post_fence bw size depth cq_mod stop timed late p j
            >> fences bw size depth cq_mod stop timed late p k
                (suc j)
                (record s { fenced = set s.fenced j true }))
    unfolding fences
    fences_post k j s e = rw (e, fences) refl

    fences-Counts :
        (k j : ℕ) (s : Pass) (w : World)
        → Fine s
        → Ensures Fine (fences bw size depth cq_mod stop timed late p k j s w).0
    unfolding fences
    fences-Counts zero j s w c = c
    fences-Counts (suc k) j s w c =
        let P = λ (m : Io Pass). Ensures Fine (m w).0 in
        let s' : Pass = record s { fenced = set s.fenced j true } in
        elim (Bool-cases (not (s.fenced j) && bw_tail_uncovered (s.posted j) cq_mod)) [
          | inr e ↦ subst P (sym (fences_skip k j s e)) (fences-Counts k (suc j) s w c)
          | inl e ↦ subst P (sym (fences_post k j s e)) (
              bind-Ensures (λ x. Unit {0}) Fine
                (post_fence bw size depth cq_mod stop timed late p j)
                (λ u. fences bw size depth cq_mod stop timed late p k (suc j) s') w
                (any-Ensures (post_fence bw size depth cq_mod stop timed late p j w).0)
                (λ u w' h. fences-Counts k (suc j) s' w' (fenced-Counts (set s.fenced j true) s c)))
        ]

    tick-Fine : (s : Pass) → Fine s → Fine (tick s)
    tick-Fine = tick-Counts bw size depth cq_mod stop timed late a b small

    fence_or-Counts :
        (now : Bool) (s : Pass) (w : World)
        → Fine s
        → Ensures Fine
            ((if now
                then fences bw size depth cq_mod stop timed late p (length bw.jetties) 0 (tick s)
                else pure (tick s))
              w).0
    fence_or-Counts true s w c = fences-Counts (length bw.jetties) 0 (tick s) w (tick-Fine s c)
    fence_or-Counts false s w c = tick-Fine s c

    fence-Counts :
        (s : Pass) (w : World)
        → Fine s
        → Ensures Fine (fence bw size depth cq_mod stop timed late p s w).0
    unfolding fence
    fence-Counts s w c =
        fence_or-Counts (stop_posting stop (late s.reads) s.next && ltb (in_flight s) depth) s w c

    -- Every state has right counters.
    pub Reaches-Counts : {s : Pass} → Reaches s → Fine s
    Reaches-Counts start = fresh-Counts (length bw.jetties) bw.post_list depth stop a b
    Reaches-Counts (posted {s} {s'} r w e) =
        let c = Reaches-Counts r in
        let h =
          post_all-Ends p bw size depth cq_mod stop timed late a b small some_size fits narrow wide
            (suc depth) s w c
            (omega (arith, done_total-next (length bw.jetties) bw.post_list depth stop a b c)) in
        (subst (Ensures _) e h).0
    Reaches-Counts (fenced {s} {s'} r w e) =
        subst (Ensures Fine) e (fence-Counts s w (Reaches-Counts r))
    Reaches-Counts (ticked {s} r) = tick-Fine s (Reaches-Counts r)
    Reaches-Counts (reaped {s} {s'} r crs h e) =
        (subst (Reaps bw size depth cq_mod stop timed late a b small s crs) e
          (reap-Reaps bw size depth cq_mod stop timed late a b small crs s (Reaches-Counts r) h)).0

    -- For at least one jetty, turns of at least one op, a depth below 2^64, and a size that is not
    -- 0, below 2^32 and no larger than the landing buffer, itself below 2^64, in every state that a
    -- pass reaches, with any answers of the library as long as the records are of ops that were
    -- posted or of fences, where the pass is over, the total is the number of ops posted, each
    -- jetty has done exactly the ops that were posted on it, and a pass of a number of ops has
    -- posted that number.
    pub Reaches-exact :
        {s : Pass}
        → Reaches s
        → is_over bw size depth cq_mod stop timed late p s ≡ true
        → (s.done_total ≡ s.next)
          × ((j : ℕ)
              → j < length bw.jetties
              → s.done j ≡ posted_on (length bw.jetties) bw.post_list j s.next)
          × ((total : ℕ) → stop ≡ BwStop.ops total → s.next ≡ total)
    unfolding is_over
    Reaches-exact {s} r h =
        let c = Reaches-Counts r in
        let e : s.done_total ≡ s.next = ground arith in
        let stopped : stop_posting stop (late s.reads) s.next ≡ true = ground arith in
        (
          e,
          done-exact (length bw.jetties) bw.post_list depth stop a b c e,
          λ total d.
              at_the_stop total (late s.reads) s.next
                (subst (λ (t : BwStop). Allows t s.next) d c.allowed)
                (subst (λ (t : BwStop). stop_posting t (late s.reads) s.next ≡ true) d stopped),
        )
