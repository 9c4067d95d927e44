-- ===== src/Tests/Passes.antt =====
-- The passes of the benchmark.
use urma_rs.Base.{
  ℕ, ℤ, ◌^◌, ◌<◌, ◌≤◌, ◌≡◌, refl, Bool, true, false, [], ◌∷◌, length, ltb, ◌==◌, Bool-cases, inl,
  inr, arith,
}
use urma_rs.Error.{err, invalid, text, Ensures, check_status}
use urma_rs.Urma.Cq.{Completion}
use urma_rs.Urma.Seg.{sge}
use urma_rs.Urma.Post.{post_read_list}
use urma_rs.Bench.Ops.{
  BwOp, BwStop, bw_op_jetty, bw_op_rank, bw_slot_off, is_signaled, resolve_cq_mod, stop_posting,
}
use urma_rs.Bench.Ops.Rank.{posted_on, bw_op_rank-posted_on}
use urma_rs.Bench.Ops.Windows.{resolve_cq_mod-stall}
use urma_rs.Bench.Pass.{
  BwCtx, Pass, set, fresh, fill, chunk, post_all, reap, is_over, may_post, in_flight, req_of,
  count_post, post_chunk, at, post_by, target_of, advance,
}
use urma_rs.Bench.Pass.Sums.{sum}
use urma_rs.Bench.Pass.Invariant.{IsOfPass, Counts, fresh-Counts}
use urma_rs.Bench.Pass.Reaping.{Reaps, reap-Reaps, full-signaled}
use urma_rs.Bench.Pass.Posting.{Fills, fill-Fills}
use urma_rs.Bench.Pass.Loop.{Ends, post_all-Ends, empty_list, chunk-late}
use urma_rs.Bench.Pass.Exact.{Reaches, Reaches-Counts, Reaches-exact}
use urma_rs.Tests.Library.{working, opened, jetty, peer, segment}

abbrev bw : BwCtx
bw = record {
  jetties = jetty ∷ jetty ∷ [];
  cq = 0;
  peers = peer ∷ peer ∷ [];
  remote_va = 8192;
  seg_len = 4096;
  landing = segment;
  post_list = 1;
  op = BwOp.read;
}

abbrev early : ℕ → Bool
early k = false

bw_op_rank-posted_on_example : bw_op_rank 17 2 3 ≡ posted_on 2 3 (bw_op_jetty 17 2 3) 17
bw_op_rank-posted_on_example = bw_op_rank-posted_on 2 3 (omega arith) (omega arith) 17

resolve_cq_mod-stall_example : is_signaled (bw_op_rank 63 2 1) (resolve_cq_mod 0 64) ≡ false
resolve_cq_mod-stall_example =
    resolve_cq_mod-stall 64 2 63 (omega arith) (omega arith) (omega arith) (omega arith)

jetties_some : 0 < length bw.jetties
jetties_some = omega arith

list_some : 0 < bw.post_list
list_some = omega arith

depth_small : 8 < 2 ^ 64
depth_small = omega arith

size_some : 0 < 64
size_some = omega arith

size_fits : 64 ≤ bw.landing.len
size_fits = omega arith

size_narrow : 64 < 2 ^ 32
size_narrow = omega arith

landing_wide : bw.landing.len < 2 ^ 64
landing_wide = omega arith

-- Two ops posted, one on each jetty.
abbrev two_posted : Pass
two_posted = record fresh {
  next = 2;
  posted = set (set (λ j. 0) 0 1) 1 1;
  started = true;
  reads = 5;
}

abbrev record_of : ℕ → Completion
record_of i = record { status = ℤ.pos 0; user_ctx = i; completion_len = 0 }

two_posted-Reaches : Reaches working bw 64 8 1 (BwStop.ops 2) true early two_posted
unfolding post_all may_post stop_posting in_flight chunk fill req_of sge bw_slot_off bw_op_jetty
    bw_op_rank is_signaled count_post post_chunk at post_by post_read_list check_status
two_posted-Reaches = Reaches.posted Reaches.start opened refl

abbrev two_done : Pass
two_done = record two_posted { done = set (set (λ j. 0) 1 1) 0 1; done_total = 2 }

-- Both records come, the later op first.
two_done-Reaches : Reaches working bw 64 8 1 (BwStop.ops 2) true early two_done
unfolding reap target_of advance bw_op_jetty bw_op_rank
two_done-Reaches =
    Reaches.reaped two_posted-Reaches (record_of 1 ∷ record_of 0 ∷ [])
      (IsOfPass.of_op (omega arith) (omega arith), (IsOfPass.of_op (omega arith) (omega arith), tt))
      refl

Reaches-exact_example :
    (two_done.done_total ≡ two_done.next)
    × ((j : ℕ) → j < 2 → two_done.done j ≡ posted_on 2 1 j two_done.next)
    × ((total : ℕ) → BwStop.ops 2 ≡ BwStop.ops total → two_done.next ≡ total)
unfolding is_over stop_posting
Reaches-exact_example =
    Reaches-exact working bw 64 8 1 (BwStop.ops 2) true early jetties_some list_some depth_small
      size_some size_fits size_narrow landing_wide two_done-Reaches refl

-- The states of the run have right counters.
two_posted-Counts : Counts 2 1 8 (BwStop.ops 2) two_posted
two_posted-Counts =
    Reaches-Counts working bw 64 8 1 (BwStop.ops 2) true early jetties_some list_some depth_small
      size_some size_fits size_narrow landing_wide two_posted-Reaches

reap-Reaps_example :
    let crs = record_of 1 ∷ record_of 0 ∷ [] in
    Reaps bw 64 8 1
      (BwStop.ops 2)
      true
      early
      jetties_some
      list_some
      depth_small
      two_posted
      crs
      (reap bw 64 8 1 (BwStop.ops 2) true early crs two_posted)
reap-Reaps_example =
    reap-Reaps bw 64 8 1 (BwStop.ops 2) true early jetties_some list_some depth_small
      (record_of 1 ∷ record_of 0 ∷ []) two_posted two_posted-Counts
      (IsOfPass.of_op (omega arith) (omega arith), (IsOfPass.of_op (omega arith) (omega arith), tt))

-- A full pipeline of eight ops with groups of four.
abbrev eight_posted : Pass
eight_posted = record fresh { next = 8; posted = λ j. 4; reads = 17 }

eight_posted-Counts : Counts 2 1 8 BwStop.until eight_posted
unfolding posted_on bw_op_jetty sum
eight_posted-Counts = record {
  posted_eq = λ j h. elim (Bool-cases (j == 0)) [
    | inl e ↦ let e' : j ≡ 0 = ground arith in rw e' refl
    | inr e ↦ let e' : j ≡ 1 = ground (arith, h) in rw e' refl
  ];
  done_le = λ j h. omega arith;
  total = refl;
  flight = omega arith;
  allowed = tt;
}

full-signaled_example :
    (i : ℕ) × (i < 8) × (is_signaled (bw_op_rank i 2 1) 4 ≡ true) × (0 ≤ bw_op_rank i 2 1)
full-signaled_example =
    full-signaled bw 64 8 4 BwStop.until true early jetties_some list_some depth_small eight_posted
      eight_posted-Counts (omega arith) (omega arith) refl

fresh-Fine : Counts 2 1 8 (BwStop.ops 2) fresh
fresh-Fine = fresh-Counts 2 1 8 (BwStop.ops 2) jetties_some list_some

fill-Fills_example :
    Fills bw 64 8 1
      (BwStop.ops 2)
      true
      early
      jetties_some
      list_some
      depth_small
      size_some
      size_fits
      size_narrow
      landing_wide
      1
      fresh
      (fill bw 64 8 1 (BwStop.ops 2) true early 1 0 fresh)
unfolding bw_op_jetty
fill-Fills_example =
    fill-Fills bw 64 8 1 (BwStop.ops 2) true early jetties_some list_some depth_small size_some
      size_fits size_narrow landing_wide 1 0 fresh fresh-Fine (λ h. refl) (omega arith)

post_all-Ends_example :
    Ensures
      (Ends working bw 64 8 1
        (BwStop.ops 2)
        true
        early
        jetties_some
        list_some
        depth_small
        size_some
        size_fits
        size_narrow
        landing_wide
        0)
      (post_all bw 64 8 1 (BwStop.ops 2) true early working 9 fresh opened).0
post_all-Ends_example =
    post_all-Ends working bw 64 8 1 (BwStop.ops 2) true early jetties_some list_some depth_small
      size_some size_fits size_narrow landing_wide 9 fresh opened fresh-Fine (omega arith)

-- The deadline passes at the second reading.
abbrev late_at_once : ℕ → Bool
late_at_once k = ltb 6 k

chunk-late_example :
    chunk bw 64 8 1 BwStop.until true late_at_once working (record two_posted { reads = 7 }) opened
    ≡ (err (invalid (text (empty_list BwOp.read))), opened)
unfolding at bw_op_jetty may_post stop_posting
chunk-late_example =
    chunk-late working bw 64 8 1 BwStop.until true late_at_once (record two_posted { reads = 7 })
      opened jetty peer list_some refl refl refl
