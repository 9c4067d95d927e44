-- ===== src/Bench/Run/OneSided.antt =====
-- examples/urma_bench.rs: `read-urma` and `write-urma`. The clock answers by the number of the
-- reading, as in the passes; `memory` gives the bytes of the landing buffer after the calls that
-- were made.
use urma_rs.Base.{
  ℕ, zero, suc, ◌%◌, ◌^◌, ltb, ◌==◌, Bool, true, false, String, List, [], ◌∷◌, Option, none, some,
  length, take, if◌then◌else◌,
}
use urma_rs.Error.{Result, ok, invalid, text, too_few_blobs}
use urma_rs.Ffi.Liburma.{Liburma, Trace}
use urma_rs.Ffi.World.{Context}
use urma_rs.Ffi.Io.{Io, ◌>>=◌, ◌>>◌, pure, fail, lift, dropping}
use urma_rs.Urma.Modes.{TransMode, TpType}
use urma_rs.Urma.Cap.{DeviceCap}
use urma_rs.Urma.Init.{init, drop_urma}
use urma_rs.Urma.Context.{drop_context}
use urma_rs.Urma.Context
use urma_rs.Urma.Cq.{Completion, is_success, poll, drop_cq}
use urma_rs.Urma.Cq
use urma_rs.Urma.Seg.{RegisteredSeg, new_registered_buf, drop_seg, LocalSge, sge}
use urma_rs.Urma.Jetty.{Jetty, drop_jetty, default_opts, token_value}
use urma_rs.Urma.Peer.{Peer, drop_peer}
use urma_rs.Urma.Post.{post_read, post_write}
use urma_rs.Common.Desc.{same_bytes}
use urma_rs.Cli.Run.{is_dash}
use urma_rs.Bench.Ops.{BwOp, BwStop, resolve_cq_mod}
use urma_rs.Bench.Pass.{BwCtx, Pass, at, bw_pass}
use urma_rs.Bench.Pattern.{check_pat}
use urma_rs.Bench.Sizes.{bench_sizes, last}
use urma_rs.Bench.Desc.{WireDesc, unpack_desc}
use urma_rs.Bench.Limits.{
  OneSidedArgs, check_args, check_depth, queue_depth, size_limit, retain, some_left, landing_len,
  resolve_priority,
}
use urma_rs.Bench.Run.{read_ctx, drop_all, preflight, new_jetties, import_peers, wait_read_spin}

abbrev own_eid : String
own_eid =
    "peer eid equals this context's eid: single-machine loopback crashes inside liburma's import path; run serve-urma on another node"

-- The timed pass, where the one before has come to its end.
unfoldable pub when_passed : Io (Option Pass) → Option Pass → Io (Option Pass)
when_passed main none = pure none
when_passed main (some s) = main

abbrev has_passed : Option Pass → Bool
has_passed none = false
has_passed (some s) = true

module _ (p : Liburma) where
  unfoldable pub post_op : BwOp → Jetty → Peer → ℕ → List LocalSge → ℕ → Io (Unit {0})
  post_op BwOp.read = post_read p
  post_op BwOp.write = post_write p

  -- One serialized op of `size` bytes: the post, and the wait for its completion.
  unfoldable pub one_op : ℕ → BwOp → Jetty → Peer → ℕ → ℕ → RegisteredSeg → ℕ → Io Completion
  one_op spins op jetty peer cq remote_va landing size = do
    local ← lift (sge landing 0 (size % 2 ^ 32))
    post_op op jetty peer remote_va (local ∷ []) read_ctx
    wait_read_spin p spins cq

  -- The verify pass of one size; the fills of the landing buffer are in the process's memory.
  unfoldable pub verify :
      (Trace → List ℕ) → ℕ → BwOp → Jetty → Peer → ℕ → ℕ → RegisteredSeg → ℕ → Io (Unit {0})
  verify memory spins BwOp.read jetty peer cq remote_va landing size = do
    done ← one_op spins BwOp.read jetty peer cq remote_va landing size
    (λ w. (check_pat "verify read" (take size (memory w.trace)), w))
  verify memory spins BwOp.write jetty peer cq remote_va landing size = do
    done ← one_op spins BwOp.write jetty peer cq remote_va landing size
    back ← one_op spins BwOp.read jetty peer cq remote_va landing size
    (λ w. (check_pat "verify write read-back" (take size (memory w.trace)), w))

  -- `run_iters`: so many rounds of an op, the first that fails ends them.
  unfoldable pub repeat : ℕ → Io (Unit {0}) → Io (Unit {0})
  repeat zero op = pure tt
  repeat (suc n) op = op >> repeat n op

  unfoldable pub run_iters : Io (Unit {0}) → ℕ → ℕ → Io (Unit {0})
  run_iters op warmup iters = repeat warmup op >> repeat iters op

  unfoldable pub is_positive : BwStop → Bool
  is_positive (BwStop.ops n) = ltb 0 n
  is_positive BwStop.until = false

  -- `run_bw_iters`: the pass for warming up, and the timed one; `duration` is `Some` of the source.
  -- A pass that has used up its rounds is `none`.
  unfoldable pub run_bw_iters :
      BwCtx → ℕ → ℕ → ℕ → ℕ → ℕ → Bool → (ℕ → Bool) → (ℕ → Bool) → ℕ → Io (Option Pass)
  run_bw_iters bw size depth cq_mod warmup iters duration late hung left =
      let warm_stop = if duration then BwStop.until else BwStop.ops warmup in
      let main_stop = if duration then BwStop.until else BwStop.ops iters in
      let main = bw_pass bw size depth cq_mod main_stop true late p hung left in
      if is_positive warm_stop
      then (bw_pass bw size depth cq_mod warm_stop false late p hung left >>= when_passed main)
      else main

  -- One size of the sweep: the verify pass, and then the timed ops or passes; false where a pass
  -- has used up its rounds.
  unfoldable pub sweep_one :
      OneSidedArgs
      → (Trace → List ℕ)
      → ℕ
      → (ℕ → Bool)
      → (ℕ → Bool)
      → ℕ
      → BwCtx
      → Jetty
      → Peer
      → ℕ
      → Io Bool
  sweep_one a memory spins late hung left bw jetty peer size = do
    verify memory spins bw.op jetty peer bw.cq bw.remote_va bw.landing size
    if a.depth == 1
        then run_iters
            (one_op spins bw.op jetty peer bw.cq bw.remote_va bw.landing size >>= λ cr. pure tt)
            a.warmup a.iters
          >> pure true
        else run_bw_iters bw size a.depth (resolve_cq_mod a.cq_mod a.depth) a.warmup a.iters
            (ltb 0 a.duration) late hung left
          >>= λ passed. pure (has_passed passed)

  unfoldable pub sweep :
      OneSidedArgs
      → (Trace → List ℕ)
      → ℕ
      → (ℕ → Bool)
      → (ℕ → Bool)
      → ℕ
      → BwCtx
      → Jetty
      → Peer
      → List ℕ
      → Io Bool
  sweep a memory spins late hung left bw jetty peer [] = pure true
  sweep a memory spins late hung left bw jetty peer (size ∷ sizes) = do
    passed ← sweep_one a memory spins late hung left bw jetty peer size
    if passed then sweep a memory spins late hung left bw jetty peer sizes else pure false

  -- The first jetty and its peer, and the sweep with all of them.
  unfoldable pub sweep_with :
      OneSidedArgs → (Trace → List ℕ) → ℕ → (ℕ → Bool) → (ℕ → Bool) → ℕ → BwCtx → List ℕ → Io Bool
  sweep_with a memory spins late hung left bw sizes = do
    jetty ← lift (at bw.jetties 0)
    peer ← lift (at bw.peers 0)
    sweep a memory spins late hung left bw jetty peer sizes

  unfoldable pub check_blobs : ℕ → WireDesc → Io (Unit {0})
  check_blobs want wire =
      if ltb (length wire.rjetty) want
      then fail (invalid (too_few_blobs want (length wire.rjetty)))
      else pure tt

  -- From the context on: the guard, the queue, the jetties, the peers, the buffer, the sweep.
  unfoldable pub run_on :
      OneSidedArgs
      → BwOp
      → (Trace → List ℕ)
      → ℕ
      → (ℕ → Bool)
      → (ℕ → Bool)
      → ℕ
      → WireDesc
      → (TransMode × TpType × Bool) × DeviceCap
      → List ℕ
      → Context
      → Io Bool
  run_on a op memory spins late hung left wire ((mode, tp, multi_path), cap) sizes ctx =
      if same_bytes wire.seg.eid.bytes ctx.eid.bytes then fail (invalid (text own_eid)) else (do
        cq ← Cq.new p ctx (queue_depth a)
        dropping (drop_cq cq) (do
          jetties ← new_jetties p a.jetties ctx cq (record default_opts {
            depth = queue_depth a;
            trans_mode = mode;
            multi_path = multi_path;
            priority = resolve_priority a.priority cap tp;
          })
          dropping (drop_all drop_jetty jetties) (do
            check_blobs a.jetties wire
            peers ← import_peers p ctx wire.seg_ctx tp (take a.jetties wire.rjetty)
            dropping (drop_all drop_peer peers) (do
              max_size ← lift (last sizes)
              landing ← new_registered_buf p ctx (landing_len a max_size) token_value
              dropping (drop_seg landing) (
                  sweep_with a memory spins late hung left
                    (record {
                      jetties = jetties;
                      cq = cq;
                      peers = peers;
                      remote_va = wire.seg.va;
                      seg_len = wire.seg.len;
                      landing = landing;
                      post_list = a.post_list;
                      op = op;
                    })
                    sizes)))))

  unfoldable pub one_sided_run :
      OneSidedArgs
      → BwOp
      → Result (List ℕ)
      → (Trace → List ℕ)
      → ℕ
      → (ℕ → Bool)
      → (ℕ → Bool)
      → ℕ
      → Io Bool
  one_sided_run a op stdin memory spins late hung left = do
    sizes ← lift (bench_sizes a.iters a.sizes)
    lift (check_args a)
    desc_hex ← lift (if is_dash a.desc then stdin else ok a.desc)
    wire ← lift (unpack_desc desc_hex)
    chosen ← preflight p a.mode
    lift (check_depth a.depth chosen.1)
    sizes' ← lift (some_left (retain (size_limit op chosen.1 wire.seg.len) sizes))
    urma ← init p
    dropping (drop_urma urma) (do
      ctx ← Context.create p urma a.mode.dev
      dropping (drop_context ctx) (run_on a op memory spins late hung left wire chosen sizes' ctx))
