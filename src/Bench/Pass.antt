-- ===== src/Bench/Pass.antt =====
-- examples/urma_bench.rs: `bw_pass`, one pipelined pass. An answer of the clock is read by its
-- number: `late` tells whether the posting deadline has passed at that reading, and `hung` whether
-- the 30 seconds of silence have. A vector with one element for each jetty is a function of the
-- index; where the source would panic on an index, the model fails.
pub mod Sums
pub mod Invariant
pub mod Reaping
pub mod Posting
pub mod Loop
pub mod Exact
use urma_rs.Base.{
  ℕ, ℤ, zero, suc, ◌+◌, ◌-◌, ◌*◌, ◌%◌, ◌^◌, ltb, leb, ◌==◌, ◌&&◌, ◌||◌, not, Bool, true, false,
  List, [], ◌∷◌, Option, none, some, length, get_elem?, take, replicate, if◌then◌else◌,
}
use urma_rs.Error.{Result, ok, err, invalid, text, bad_completion, poll_timeout}
use urma_rs.Ffi.Liburma.{Liburma}
use urma_rs.Ffi.Io.{Io, ◌>>=◌, ◌>>◌, pure, fail, lift}
use urma_rs.Urma.Cq.{Completion, is_success, poll_batch}
use urma_rs.Urma.Seg.{RegisteredSeg, sge}
use urma_rs.Urma.Jetty.{Jetty}
use urma_rs.Urma.Peer.{Peer}
use urma_rs.Urma.Post.{Req, post_read_list, post_write_list, post_read_signaled}
use urma_rs.Bench.Ops.{
  BwOp, BwStop, bw_op_jetty, bw_op_rank, bw_slot_off, stop_posting, is_signaled, bw_tail_uncovered,
}

abbrev pub bw_poll_batch : ℕ
bw_poll_batch = 16

abbrev pub bw_max_jetties : ℕ
bw_max_jetties = 64

-- `u64::MAX`.
abbrev pub bw_fence_ctx_base : ℕ
bw_fence_ctx_base = 0xffffffffffffffff

abbrev pub bw_fence_ctx_min : ℕ
bw_fence_ctx_min = bw_fence_ctx_base - (bw_max_jetties - 1)

pub record BwCtx : Type 0 where
  pub jetties : List Jetty
  pub cq : ℕ
  pub peers : List Peer
  pub remote_va : ℕ
  pub seg_len : ℕ
  pub landing : RegisteredSeg
  pub post_list : ℕ
  pub op : BwOp

-- The locals of `bw_pass`; `started` is `t0.is_some()`, `reads` counts the readings of the clock.
pub record Pass : Type 0 where
  pub next : ℕ
  pub posted : ℕ → ℕ
  pub done : ℕ → ℕ
  pub done_total : ℕ
  pub fenced : ℕ → Bool
  pub started : Bool
  pub crs : List Completion
  pub reads : ℕ

abbrev pub set {ℓ} : {A : Type ℓ} → (ℕ → A) → ℕ → A → (ℕ → A)
set f j v = λ k. if k == j then v else f k

abbrev pub fresh : Pass
fresh = record {
  next = 0;
  posted = λ j. 0;
  done = λ j. 0;
  done_total = 0;
  fenced = λ j. false;
  started = false;
  crs = replicate bw_poll_batch (record { status = ℤ.pos 0; user_ctx = 0; completion_len = 0 });
  reads = 0;
}

abbrev pub tick : Pass → Pass
tick s = record s { reads = suc s.reads }

-- `next - done_total` of two u64.
unfoldable pub in_flight : Pass → ℕ
in_flight s = (s.next + 2 ^ 64 - s.done_total) % 2 ^ 64

abbrev panic {ℓ} : {A : Type ℓ} → Result A
panic = err (invalid (text "index out of bounds"))

-- `v[j]`.
unfoldable pub at : {A : Type 0} → List A → ℕ → Result A
at xs j = elim (get_elem? xs j) [ none ↦ panic | some x ↦ ok x ]

-- The fixed arguments of a pass.
module _ (bw : BwCtx) (size depth cq_mod : ℕ) (stop : BwStop) (timed : Bool) (late : ℕ → Bool) where
  -- Both tests of a `while` of the posting: may one more op be posted?
  unfoldable pub may_post : Pass → Bool
  may_post s = not (stop_posting stop (late s.reads) s.next) && ltb (in_flight s) depth

  unfoldable pub req_of : Pass → Result Req
  req_of s = elim (sge bw.landing (bw_slot_off s.next size bw.landing.len) (size % 2 ^ 32)) [
    | err e ↦ err e
    | ok local ↦ ok (record {
      remote_va = (bw.remote_va + bw_slot_off s.next size bw.seg_len) % 2 ^ 64;
      local = local;
      user_ctx = s.next;
      signaled = is_signaled (bw_op_rank s.next (length bw.jetties) bw.post_list) cq_mod;
    })
  ]

  -- `next += 1; posted[j] += 1`, and the start of the window.
  unfoldable pub count_post : ℕ → Pass → Pass
  count_post j s = record s {
    next = suc s.next;
    posted = set s.posted j (suc (s.posted j));
    started = s.started || (timed && s.next == 0);
  }

  -- The inner `while`, with what is left of the turn.
  unfoldable pub fill : ℕ → ℕ → Pass → Result (List Req × Pass)
  fill zero j s = ok ([], s)
  fill (suc rem) j s = elim (may_post s) [
    | false ↦ ok ([], tick s)
    | true ↦ elim (req_of (tick s)) [
      | err e ↦ err e
      | ok req ↦ elim (fill rem j (count_post j (tick s))) [
        | err e ↦ err e
        | ok (reqs, s') ↦ ok (req ∷ reqs, s')
      ]
    ]
  ]

  -- What one record proves: the jetty, and how many of its ops are done.
  unfoldable pub target_of : Pass → ℕ → ℕ × ℕ
  target_of s ctx =
      if leb bw_fence_ctx_min ctx
      then (bw_fence_ctx_base - ctx, s.posted (bw_fence_ctx_base - ctx))
      else (
        bw_op_jetty ctx (length bw.jetties) bw.post_list,
        bw_op_rank ctx (length bw.jetties) bw.post_list + 1,
      )

  -- `if target > done[j]`.
  unfoldable pub advance : Pass → ℕ × ℕ → Pass
  advance s (j, target) =
      if ltb (s.done j) target
      then record s { done = set s.done j target; done_total = s.done_total + (target - s.done j) }
      else s

  -- The loop over the records.
  unfoldable pub reap : List Completion → Pass → Result Pass
  reap [] s = ok s
  reap (cr ∷ crs) s =
      if not (is_success cr)
      then err (bad_completion cr.status cr.user_ctx)
      else if not (ltb (target_of s cr.user_ctx).0 (length bw.jetties))
      then panic
      else reap crs (advance s (target_of s cr.user_ctx))

  module _ (p : Liburma) where
    unfoldable pub post_by : BwOp → Jetty → Peer → List Req → Io (Unit {0})
    post_by BwOp.read = post_read_list p
    post_by BwOp.write = post_write_list p

    -- `bw.jetties[j].post_read_list(&bw.peers[j], ...)` and its WRITE form.
    unfoldable pub post_chunk : ℕ → List Req → Io (Unit {0})
    post_chunk j reqs = do
      jetty ← lift (at bw.jetties j)
      peer ← lift (at bw.peers j)
      post_by bw.op jetty peer reqs

    -- The body of the outer `while`.
    unfoldable pub chunk : Pass → Io Pass
    chunk s = do
      let j = bw_op_jetty s.next (length bw.jetties) bw.post_list
      (reqs, s') ← lift (fill (bw.post_list - s.next % bw.post_list) j s)
      post_chunk j reqs
      pure s'

    -- The outer `while`, which posts an op in each round.
    unfoldable pub post_all : ℕ → Pass → Io Pass
    post_all zero s = pure s
    post_all (suc fuel) s = elim (may_post s) [
      | false ↦ pure (tick s)
      | true ↦ chunk (tick s) >>= post_all fuel
    ]

    -- The one byte READ that closes the tail of a jetty.
    unfoldable pub post_fence : ℕ → Io (Unit {0})
    post_fence j = do
      jetty ← lift (at bw.jetties j)
      peer ← lift (at bw.peers j)
      local ← lift (sge bw.landing 0 1)
      post_read_signaled p jetty peer bw.remote_va (local ∷ []) (bw_fence_ctx_base - j) true

    -- `for j in 0..n`: the jetties from `j` on, `k` of them.
    unfoldable pub fences : ℕ → ℕ → Pass → Io Pass
    fences zero j s = pure s
    fences (suc k) j s = elim (not (s.fenced j) && bw_tail_uncovered (s.posted j) cq_mod) [
      | false ↦ fences k (suc j) s
      | true ↦ post_fence j >> fences k (suc j) (record s { fenced = set s.fenced j true })
    ]

    unfoldable pub fence : Pass → Io Pass
    fence s =
        if stop_posting stop (late s.reads) s.next && ltb (in_flight s) depth
        then fences (length bw.jetties) 0 (tick s)
        else pure (tick s)

    -- The poll and what follows it.
    unfoldable pub poll_round : (ℕ → Bool) → Pass → Io Pass
    poll_round hung s = do
      (cnt, crs) ← poll_batch p bw.cq s.crs
      if cnt == 0
          then (if hung s.reads then fail (poll_timeout s.next) else pure (tick s))
          else if ltb (length crs) cnt
          then lift panic
          else lift (reap (take cnt crs) (record s { crs = crs }))

    unfoldable pub is_over : Pass → Bool
    is_over s = s.done_total == s.next && stop_posting stop (late s.reads) s.next

    -- The `loop`, with the rounds left: `none` where they run out.
    unfoldable pub rounds : (ℕ → Bool) → ℕ → Pass → Io (Option Pass)
    rounds hung zero s = pure none
    rounds hung (suc left) s = do
      s1 ← post_all (suc depth) s
      s2 ← fence s1
      elim (is_over s2) [
        | true ↦ pure (some s2)
        | false ↦ poll_round hung (tick s2) >>= rounds hung left
      ]

    unfoldable pub bw_pass : (ℕ → Bool) → ℕ → Io (Option Pass)
    bw_pass hung left = rounds hung left fresh
