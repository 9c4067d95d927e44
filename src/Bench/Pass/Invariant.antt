-- ===== src/Bench/Pass/Invariant.antt =====
-- The counters of a pass.
use urma_rs.Base.{
  ℕ, suc, ◌+◌, ◌-◌, ◌^◌, ◌<◌, ◌≤◌, ltb, leb, ◌≡◌, refl, ◌∙◌, sym, Bool, true, false, length,
  Bool-cases, inl, inr, arith,
}
use urma_rs.Bench.Ops.{BwStop, bw_op_jetty, bw_op_rank, stop_posting}
use urma_rs.Bench.Ops.Rank.{posted_on, posted_on_mono, bw_op_jetty-bound, bw_op_rank-posted_on}
use urma_rs.Bench.Pass.Sums.{sum, sum-set, sum-le, sum-exact, sum-posted_on, sum-ext, sum-zero}
use urma_rs.Bench.Pass.{
  bw_fence_ctx_min, bw_fence_ctx_base, BwCtx, Pass, tick, fresh, in_flight, may_post, count_post,
  target_of, advance,
}

-- A number of posts that the stop lets happen.
abbrev pub Allows : BwStop → ℕ → Type 0
Allows (BwStop.ops n) next = next ≤ n
Allows BwStop.until next = Unit

-- One more post, where the stop has not come.
Allows-suc :
    (stop : BwStop) (late : Bool) (next : ℕ)
    → stop_posting stop late next ≡ false
    → Allows stop (suc next)
unfolding stop_posting
Allows-suc (BwStop.ops n) late next e = ground arith
Allows-suc BwStop.until late next e = tt

Allows-zero : (stop : BwStop) → Allows stop 0
Allows-zero (BwStop.ops n) = omega arith
Allows-zero BwStop.until = tt

-- Of `n` jetties in turns of `list`, each has been given its ops and has no more done; the total is
-- that of the jetties, and no more than `depth` ops are in
-- flight, and none is posted behind the stop.
pub record Counts (n list depth : ℕ) (stop : BwStop) (s : Pass) : Type 0 where
  pub posted_eq : (j : ℕ) → j < n → s.posted j ≡ posted_on n list j s.next
  pub done_le : (j : ℕ) → j < n → s.done j ≤ s.posted j
  pub total : s.done_total ≡ sum n s.done
  pub flight : s.next ≤ s.done_total + depth
  pub allowed : Allows stop s.next

module _ (n list depth : ℕ) (stop : BwStop) (a : 0 < n) (b : 0 < list) where
  pub fresh-Counts : Counts n list depth stop fresh
  unfolding posted_on
  fresh-Counts = record {
    posted_eq = λ j h. refl;
    done_le = λ j h. omega arith;
    total = sym (sum-zero n);
    flight = omega arith;
    allowed = Allows-zero stop;
  }

  module _ {s : Pass} (c : Counts n list depth stop s) where
    pub posted-sum : sum n s.posted ≡ s.next
    posted-sum =
        sum-ext n s.posted (λ j. posted_on n list j s.next) c.posted_eq
        ∙ sum-posted_on n list s.next a b

    pub done_total-next : s.done_total ≤ s.next
    done_total-next = omega (arith, c.total, posted-sum, sum-le n s.done s.posted c.done_le)

    pub in_flight-eq : depth < 2 ^ 64 → in_flight s ≡ s.next - s.done_total
    unfolding in_flight
    in_flight-eq h = omega (arith, done_total-next, c.flight, h)

    -- All that was posted is done, jetty by jetty.
    pub done-exact : s.done_total ≡ s.next → (j : ℕ) → j < n → s.done j ≡ posted_on n list j s.next
    done-exact e j h =
        let sums : sum n s.done ≡ sum n s.posted = omega (arith, e, c.total, posted-sum) in
        sum-exact n s.done s.posted c.done_le sums j h ∙ c.posted_eq j h

-- A record that may come: of an op that was posted, or of the fence of a jetty.
pub data IsOfPass (n : ℕ) (s : Pass) (ctx : ℕ) : Type 0 where
  of_op : ctx < bw_fence_ctx_min → ctx < s.next → IsOfPass n s ctx
  of_fence : bw_fence_ctx_min ≤ ctx → bw_fence_ctx_base - ctx < n → IsOfPass n s ctx

-- The steps of a pass that make no call.
module _ (bw : BwCtx) (size depth cq_mod : ℕ) (stop : BwStop) (timed : Bool) (late : ℕ → Bool)
    (a : 0 < length bw.jetties) (b : 0 < bw.post_list) (small : depth < 2 ^ 64) where
  abbrev pub Fine : Pass → Type 0
  Fine = Counts (length bw.jetties) bw.post_list depth stop

  -- A post, where there is room.
  pub count_post-Counts :
      (s : Pass)
      → Fine s
      → may_post bw size depth cq_mod stop timed late s ≡ true
      → Fine (
          count_post bw size depth cq_mod stop timed late
            (bw_op_jetty s.next (length bw.jetties) bw.post_list)
            (tick s))
  unfolding may_post count_post posted_on
  count_post-Counts s c h = record {
    posted_eq = λ j k. ground (arith, c.posted_eq j k);
    done_le = λ j k. ground (arith, c.done_le j k);
    total = c.total;
    flight =
        ground
          (arith, in_flight-eq (length bw.jetties) bw.post_list depth stop a b c small, c.flight);
    allowed = Allows-suc stop (late s.reads) s.next (ground arith);
  }

  pub target_of-bound :
      (s : Pass) (ctx : ℕ)
      → Fine s
      → IsOfPass (length bw.jetties) s ctx
      → ((target_of bw size depth cq_mod stop timed late s ctx).0 < length bw.jetties)
        × ((target_of bw size depth cq_mod stop timed late s ctx).1
            ≤ s.posted (target_of bw size depth cq_mod stop timed late s ctx).0)
  unfolding target_of posted_on
  target_of-bound s ctx c (of_op l k) =
      let n = length bw.jetties in
      let j = bw_op_jetty ctx n bw.post_list in
      let e : leb bw_fence_ctx_min ctx ≡ false = ground arith in
      let lane = bw_op_jetty-bound n bw.post_list a b ctx in
      let one_more : bw_op_rank ctx n bw.post_list + 1 ≤ posted_on n bw.post_list j (suc ctx) =
        ground (arith, bw_op_rank-posted_on n bw.post_list a b ctx) in
      rw e (
        lane,
        omega (
          arith,
          one_more,
          c.posted_eq j lane,
          posted_on_mono n bw.post_list j (suc ctx) s.next k,
        ),
      )
  target_of-bound s ctx c (of_fence l k) =
      let e : leb bw_fence_ctx_min ctx ≡ true = ground arith in rw e (k, omega arith)

  pub advance-Counts :
      (s : Pass) (j target : ℕ)
      → j < length bw.jetties
      → target ≤ s.posted j
      → Fine s
      → Fine (advance bw size depth cq_mod stop timed late s (j, target))
        × ((advance bw size depth cq_mod stop timed late s (j, target)).next ≡ s.next)
        × (s.done_total ≤ (advance bw size depth cq_mod stop timed late s (j, target)).done_total)
  unfolding advance
  advance-Counts s j target h k c = elim (Bool-cases (ltb (s.done j) target)) [
    | inr e ↦ rw e (c, refl, omega arith)
    | inl e ↦
        let up : s.done j < target = ground arith in
        rw e (
          record {
            posted_eq = c.posted_eq;
            done_le = λ i l. ground (arith, c.done_le i l, k);
            total = omega (arith, c.total, sum-set (length bw.jetties) j target s.done h, up);
            flight = omega (arith, c.flight);
            allowed = c.allowed;
          },
          refl,
          omega arith,
        )
  ]
