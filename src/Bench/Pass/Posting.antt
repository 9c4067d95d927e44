-- ===== src/Bench/Pass/Posting.antt =====
-- What a pass posts.
use urma_rs.Base.{
  ℕ, zero, suc, ◌+◌, ◌%◌, ◌^◌, ◌<◌, ◌≤◌, ltb, ◌≡◌, refl, ap, subst, ◌∙◌, sym, Bool, true, false,
  List, [], ◌∷◌, length, Bool-cases, inl, inr, arith,
}
use native.Mathlib.Nat.{mod-lt}
use urma_rs.Error.{Result, ok, err}
use urma_rs.Urma.Seg.{sge}
use urma_rs.Urma.Post.{Req}
use urma_rs.Bench.Ops.{BwStop, bw_op_jetty, bw_op_rank, bw_slot_off, is_signaled}
use urma_rs.Bench.Ops.Rank.{bw_op_jetty-turn}
use urma_rs.Bench.Ops.Windows.{bw_slot_off-bound}
use urma_rs.Bench.Pass.{BwCtx, Pass, tick, may_post, req_of, count_post, fill}
use urma_rs.Bench.Pass.Invariant.{Counts, count_post-Counts}

module _ (bw : BwCtx) (size depth cq_mod : ℕ) (stop : BwStop) (timed : Bool) (late : ℕ → Bool)
    (a : 0 < length bw.jetties) (b : 0 < bw.post_list) (small : depth < 2 ^ 64) where
  abbrev pub Fine : Pass → Type 0
  Fine = Counts (length bw.jetties) bw.post_list depth stop

  -- A reading of the clock.
  pub tick-Counts : (s : Pass) → Fine s → Fine (tick s)
  tick-Counts s c = record {
    posted_eq = c.posted_eq;
    done_le = c.done_le;
    total = c.total;
    flight = c.flight;
    allowed = c.allowed;
  }

  abbrev pub full_req : ℕ → Req
  full_req i = record {
    remote_va = (bw.remote_va + bw_slot_off i size bw.seg_len) % 2 ^ 64;
    local = record {
      tseg = bw.landing.tseg;
      addr = (bw.landing.va + bw_slot_off i size bw.landing.len) % 2 ^ 64;
      len = size;
    };
    user_ctx = i;
    signaled = is_signaled (bw_op_rank i (length bw.jetties) bw.post_list) cq_mod;
  }

  -- The requests of `k` ops in a row.
  abbrev pub reqs_from : ℕ → ℕ → List Req
  reqs_from i zero = []
  reqs_from i (suc k) = full_req i ∷ reqs_from (suc i) k

  module _ (some_size : 0 < size) (fits : size ≤ bw.landing.len) (narrow : size < 2 ^ 32)
      (wide : bw.landing.len < 2 ^ 64) where
    slot-sge :
        (i : ℕ)
        → sge bw.landing (bw_slot_off i size bw.landing.len) (size % 2 ^ 32) ≡ ok (full_req i).local
    unfolding sge
    slot-sge i =
        let inside = bw_slot_off-bound i size bw.landing.len some_size fits in
        let e : size % 2 ^ 32 ≡ size = omega (arith, narrow) in rw e (ground (arith, inside, wide))

    req_of-full : (s : Pass) → req_of bw size depth cq_mod stop timed late s ≡ ok (full_req s.next)
    unfolding req_of
    req_of-full s = ground (arith, slot-sge s.next)

    -- The requests that stand in a list are those of the next ops, all on one jetty.
    abbrev pub Fills : ℕ → Pass → Result (List Req × Pass) → Type 0
    Fills rem s (ok (reqs, s')) =
        Fine s'
        × (reqs ≡ reqs_from s.next (length reqs))
        × (s'.next ≡ s.next + length reqs)
        × (s'.done_total ≡ s.done_total)
        × (length reqs ≤ rem)
    Fills rem s (err e) = ⊥

    -- One more request in front.
    abbrev in_front : Req → Result (List Req × Pass) → Result (List Req × Pass)
    in_front req (ok (reqs, s')) = ok (req ∷ reqs, s')
    in_front req (err e) = err e

    in_front-Fills :
        (rem : ℕ) (s s1 : Pass) (r : Result (List Req × Pass))
        → s1.next ≡ suc s.next
        → s1.done_total ≡ s.done_total
        → Fills rem s1 r
        → Fills (suc rem) s (in_front (full_req s.next) r)
    in_front-Fills rem s s1 (ok (reqs, s')) e d (c, rs, n, t, l) = (
      c,
      ap (λ (xs : List Req). full_req s.next ∷ xs)
          (rs ∙ ap (λ (i : ℕ). reqs_from i (length reqs)) e),
      omega (arith, n, e),
      t ∙ d,
      omega (arith, l),
    )
    in_front-Fills rem s s1 (err x) e d h = h

    fill_step :
        (rem j : ℕ) (s : Pass)
        → may_post bw size depth cq_mod stop timed late s ≡ true
        → fill bw size depth cq_mod stop timed late (suc rem) j s
          ≡ in_front (full_req s.next) (
              fill bw size depth cq_mod stop timed late rem j
                (count_post bw size depth cq_mod stop timed late j (tick s)))
    unfolding fill
    fill_step rem j s e = ground (arith, req_of-full (tick s))

    fill_stop :
        (rem j : ℕ) (s : Pass)
        → may_post bw size depth cq_mod stop timed late s ≡ false
        → fill bw size depth cq_mod stop timed late (suc rem) j s ≡ ok ([], tick s)
    unfolding fill
    fill_stop rem j s e = ground arith

    same_lane :
        (rem j i : ℕ)
        → j ≡ bw_op_jetty i (length bw.jetties) bw.post_list
        → suc rem + i % bw.post_list ≤ bw.post_list
        → 0 < rem
        → j ≡ bw_op_jetty (suc i) (length bw.jetties) bw.post_list
    same_lane rem j i e h k =
        e ∙ sym (bw_op_jetty-turn (length bw.jetties) bw.post_list i (omega (arith, h, k))).0

    left :
        (rem i : ℕ)
        → suc rem + i % bw.post_list ≤ bw.post_list
        → rem + suc i % bw.post_list ≤ bw.post_list
    left rem i h = elim (Bool-cases (ltb 0 rem)) [
      | inl e ↦
          let k : 0 < rem = ground arith in
          omega (
            arith,
            h,
            (bw_op_jetty-turn (length bw.jetties) bw.post_list i (omega (arith, h, k))).1,
          )
      | inr e ↦
          let k : rem ≡ 0 = ground arith in omega (arith, k, mod-lt (suc i) {m = bw.post_list} b)
    ]

    -- For at least one jetty, turns of at least one op, a depth below 2^64, and a size that is not
    -- 0, below 2^32 and no larger than the landing buffer, itself below 2^64, from right counters
    -- and within the turn of one jetty, filling a list never fails: it yields the requests of the
    -- next ops in a row, no more than asked for, no done op changes, and the counters are right
    -- again.
    pub fill-Fills :
        (rem j : ℕ) (s : Pass)
        → Fine s
        → (0 < rem → j ≡ bw_op_jetty s.next (length bw.jetties) bw.post_list)
        → rem + s.next % bw.post_list ≤ bw.post_list
        → Fills rem s (fill bw size depth cq_mod stop timed late rem j s)
    unfolding fill count_post
    fill-Fills zero j s c e h = (c, refl, omega arith, refl, omega arith)
    fill-Fills (suc rem) j s c e h =
        elim (Bool-cases (may_post bw size depth cq_mod stop timed late s)) [
          | inr e' ↦
              subst (Fills (suc rem) s) (sym (fill_stop rem j s e'))
                (tick-Counts s c, refl, omega arith, refl, omega arith)
          | inl e' ↦
              let s1 = count_post bw size depth cq_mod stop timed late j (tick s) in
              subst (Fills (suc rem) s) (sym (fill_step rem j s e')) (
                in_front-Fills rem s s1 (fill bw size depth cq_mod stop timed late rem j s1) refl
                  refl
                  (fill-Fills rem j s1
                    (subst
                      (λ (i : ℕ). Fine (count_post bw size depth cq_mod stop timed late i (tick s)))
                      (sym (e (omega arith)))
                      (count_post-Counts bw size depth cq_mod stop timed late a b small s c e'))
                    (λ k. same_lane rem j s.next (e (omega arith)) h k) (left rem s.next h)))
        ]
