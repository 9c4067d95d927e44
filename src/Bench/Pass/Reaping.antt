-- ===== src/Bench/Pass/Reaping.antt =====
-- The records of a poll, and the progress of a full pipeline.
use urma_rs.Base.{
  ℕ, ◌+◌, ◌-◌, ◌*◌, ◌/◌, ◌%◌, ◌^◌, ◌<◌, ◌≤◌, ltb, ◌≡◌, refl, ap, ◌∙◌, Bool, true, false, List, [],
  ◌∷◌, length, Bool-cases, inl, inr, All, arith,
}
use native.Mathlib.Nat.{add-mul, div-add-mod', mod-lt}
use urma_rs.Error.{Result, ok, err, bad_completion}
use urma_rs.Urma.Cq.{Completion, is_success}
use urma_rs.Bench.Ops.{BwStop, bw_op_jetty, bw_op_rank, is_signaled}
use urma_rs.Bench.Ops.Rank.{op_of_rank, bw_op_rank-posted_on, mod-digits}
use urma_rs.Bench.Pass.Sums.{sum-pigeon, sum-minus}
use urma_rs.Bench.Pass.{BwCtx, Pass, target_of, advance, reap}
use urma_rs.Bench.Pass.Invariant.{Counts, IsOfPass, target_of-bound, advance-Counts, posted-sum}

module _ (bw : BwCtx) (size depth cq_mod : ℕ) (stop : BwStop) (timed : Bool) (late : ℕ → Bool)
    (a : 0 < length bw.jetties) (b : 0 < bw.post_list) (small : depth < 2 ^ 64) where
  abbrev Fine : Pass → Type 0
  Fine = Counts (length bw.jetties) bw.post_list depth stop

  -- The counters hold and have not gone back, or the error names a record that failed.
  abbrev pub Reaps : Pass → List Completion → Result Pass → Type 0
  Reaps s crs (ok s') = Fine s' × (s'.next ≡ s.next) × (s.done_total ≤ s'.done_total)
  Reaps s crs (err e) =
      (cr : Completion) × (is_success cr ≡ false) × (e ≡ bad_completion cr.status cr.user_ctx)

  still :
      (s s' : Pass) (crs : List Completion)
      → s'.next ≡ s.next
      → All (λ cr. IsOfPass (length bw.jetties) s cr.user_ctx) crs
      → All (λ cr. IsOfPass (length bw.jetties) s' cr.user_ctx) crs
  still s s' [] e h = tt
  still s s' (cr ∷ crs) e (h, hs) = (still_one h, still s s' crs e hs)
    where
      still_one :
          IsOfPass (length bw.jetties) s cr.user_ctx → IsOfPass (length bw.jetties) s' cr.user_ctx
      still_one (IsOfPass.of_op l k) = IsOfPass.of_op l (omega (arith, e, k))
      still_one (IsOfPass.of_fence l k) = IsOfPass.of_fence l k

  after :
      (s s' : Pass) (crs : List Completion) (r : Result Pass)
      → s'.next ≡ s.next
      → s.done_total ≤ s'.done_total
      → Reaps s' crs r
      → Reaps s crs r
  after s s' crs (ok t) e l (c, e', l') = (c, e' ∙ e, omega (arith, l, l'))
  after s s' crs (err x) e l h = h

  -- For at least one jetty, turns of at least one op, a depth below 2^64, right counters and
  -- records of ops that were posted or of fences, the records of a poll keep the counters right and
  -- the number done does not go back, or the error names a record that failed.
  pub reap-Reaps :
      (crs : List Completion) (s : Pass)
      → Fine s
      → All (λ cr. IsOfPass (length bw.jetties) s cr.user_ctx) crs
      → Reaps s crs (reap bw size depth cq_mod stop timed late crs s)
  unfolding reap
  reap-Reaps [] s c h = (c, refl, omega arith)
  reap-Reaps (cr ∷ crs) s c h = elim (Bool-cases (is_success cr)) [
    | inr e ↦ rw e (cr, e, refl)
    | inl e ↦
        let (lane, low) =
          target_of-bound bw size depth cq_mod stop timed late a b small s cr.user_ctx c h.0 in
        let e' : ltb (target_of bw size depth cq_mod stop timed late s cr.user_ctx).0
              (length bw.jetties)
            ≡ true =
          ground arith in
        let s' =
          advance bw size depth cq_mod stop timed late s
            (target_of bw size depth cq_mod stop timed late s cr.user_ctx) in
        let (c', n', l') =
          advance-Counts bw size depth cq_mod stop timed late a b small s
            (target_of bw size depth cq_mod stop timed late s cr.user_ctx).0
            (target_of bw size depth cq_mod stop timed late s cr.user_ctx).1 lane low c in
        rw (e, e')
          (after s s' crs (reap bw size depth cq_mod stop timed late crs s') n' l'
            (reap-Reaps crs s' c' (still s s' crs n' h.1)))
  ]

  -- A group of `m` ranks in a row holds one that asks for a record.
  signaled_rank : (m d : ℕ) → 0 < m → (r : ℕ) × (d ≤ r) × (r < d + m) × (is_signaled r m ≡ true)
  unfolding is_signaled
  signaled_rank m d h =
      let group : d / m * m + (m - 1) + 1 ≡ (d / m + 1) * m + 0 =
        omega (arith, h, add-mul (d / m) 1 m) in
      let e : (d / m * m + (m - 1) + 1) % m ≡ 0 =
        ap (λ (t : ℕ). t % m) group ∙ mod-digits (d / m + 1) 0 m h in
      (
        d / m * m + (m - 1),
        omega (arith, div-add-mod' d m, mod-lt d {m = m} h),
        omega (arith, div-add-mod' d m, mod-lt d {m = m} h),
        ground (arith, e),
      )

  -- For at least one jetty, turns of at least one op, a depth below 2^64 and a group of at least
  -- one op: in a state with right counters whose pipeline is full and larger than what the jetties
  -- can hold back, the number of jetties times one less than the group, an op that asks for a
  -- record is posted and not counted as done.
  pub full-signaled :
      (s : Pass)
      → Fine s
      → 0 < cq_mod
      → length bw.jetties * (cq_mod - 1) < depth
      → s.next ≡ s.done_total + depth
      → (i : ℕ) × (i < s.next)
        × (is_signaled (bw_op_rank i (length bw.jetties) bw.post_list) cq_mod ≡ true)
        × (s.done (bw_op_jetty i (length bw.jetties) bw.post_list)
            ≤ bw_op_rank i (length bw.jetties) bw.post_list)
  full-signaled s c h large full =
      let n = length bw.jetties in
      let spread = sum-minus n s.done s.posted c.done_le in
      let all = posted-sum n bw.post_list depth stop a b c in
      let (j, lane, k) =
        sum-pigeon n (cq_mod - 1) (λ i. s.posted i - s.done i)
          (omega (arith, spread, all, c.total, full, large)) in
      let (r, low, high, asks) = signaled_rank cq_mod (s.done j) h in
      let (i, before, on, rank) =
        op_of_rank n bw.post_list j r s.next (omega (arith, high, k, c.posted_eq j lane)) in
      let e : bw_op_rank i n bw.post_list ≡ r =
        ground (arith, bw_op_rank-posted_on n bw.post_list a b i) in
      (i, before, rw e asks, rw (on, e) low)
