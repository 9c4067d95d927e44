-- ===== src/Bench/Run.antt =====
-- examples/urma_bench.rs: the subcommands over urma. `serve-urma`, and what the child
-- OneSided builds `read-urma` and `write-urma` of.
pub mod OneSided
pub mod Serial
use urma_rs.Base.{
  ℕ, zero, suc, ◌+◌, ◌%◌, ◌^◌, min, ltb, ◌==◌, ◌||◌, not, Bool, true, false, String, List, [], ◌∷◌,
  ◌++◌, Option, none, some, length, take, if◌then◌else◌,
}
use urma_rs.Error.{Result, ok, err, invalid, text, bad_completion, poll_timeout, too_few_blobs}
use urma_rs.Ffi.Liburma.{Liburma, Trace}
use urma_rs.Ffi.World.{World, Context}
use urma_rs.Ffi.Io.{Io, ◌>>=◌, ◌>>◌, pure, fail, lift, dropping}
use urma_rs.Urma.Modes.{TransMode, TpType}
use urma_rs.Urma.Cap.{DeviceCap}
use urma_rs.Urma.Device.{query_device}
use urma_rs.Urma.Init.{init, drop_urma}
use urma_rs.Urma.Context.{drop_context}
use urma_rs.Urma.Context
use urma_rs.Urma.Cq.{Completion, is_success, poll, drop_cq}
use urma_rs.Urma.Cq
use urma_rs.Urma.Seg.{
  RegisteredSeg, new_registered_buf, export_seg_ctx, descriptor, drop_seg, LocalSge, sge,
}
use urma_rs.Urma.Jetty.{
  Jetty, JettyOpts, drop_jetty, default_opts, default_depth, token_value, export_rjetty,
}
use urma_rs.Urma.Jetty
use urma_rs.Urma.Peer.{Peer, drop_peer, import_ctx}
use urma_rs.Urma.Post.{post_read, post_write}
use urma_rs.Common.Desc.{same_bytes}
use urma_rs.Common.Res.{or_drop}
use urma_rs.Cli.Preflight.{ModeArgs, preflight_of}
use urma_rs.Cli.Run.{is_dash}
use urma_rs.Bench.Ops.{BwOp, BwStop, resolve_cq_mod}
use urma_rs.Bench.Pass.{BwCtx, Pass, at, bw_pass, bw_max_jetties}
use urma_rs.Bench.Pattern.{check_pat}
use urma_rs.Bench.Sizes.{bench_sizes, resolve_buf_len, last}
use urma_rs.Bench.Desc.{WireDesc, pack_desc, unpack_desc}
use urma_rs.Bench.Limits.{
  OneSidedArgs, check_args, check_depth, queue_depth, size_limit, retain, some_left, landing_len,
  resolve_priority,
}

abbrev pub read_ctx : ℕ
read_ctx = 0x1a7

pub record ServeUrmaArgs : Type 0 where
  pub mode : ModeArgs
  pub priority : Option ℕ
  pub jetties : ℕ
  pub sizes : Option (List ℕ)
  pub buf_len : Option ℕ

pub record Served : Type 0 where
  pub urma : ℕ
  pub ctx : Context
  pub cq : ℕ
  pub jetties : List Jetty
  pub buf : RegisteredSeg
  pub line : List ℕ

-- The elements of a vector are dropped in their order.
unfoldable pub drop_all : {A : Type 0} → (A → World → World) → List A → World → World
drop_all f [] w = w
drop_all f (x ∷ xs) w = drop_all f xs (f x w)

-- What follows one poll of `wait_read_spin`.
unfoldable pub landed : Io Completion → Option Completion → Io Completion
landed again none = again
landed again (some cr) =
    if not (is_success cr) || not (cr.user_ctx == read_ctx)
    then fail (bad_completion cr.status cr.user_ctx)
    else pure cr

module _ (p : Liburma) where
  -- `preflight`, which gives the capabilities too.
  unfoldable pub preflight : ModeArgs → Io ((TransMode × TpType × Bool) × DeviceCap)
  preflight m = do
    cap ← query_device p m.dev
    chosen ← lift (preflight_of m cap)
    pure (chosen, cap)

  -- `n` jetties; on a failure those that were made are dropped.
  unfoldable pub new_jetties : ℕ → Context → ℕ → JettyOpts → Io (List Jetty)
  new_jetties zero ctx cq opts = pure []
  new_jetties (suc n) ctx cq opts = do
    jetty ← Jetty.new p ctx cq opts
    or_drop (drop_jetty jetty) (new_jetties n ctx cq opts >>= λ jetties. pure (jetty ∷ jetties))

  unfoldable pub export_rjettys : List Jetty → Io (List (List ℕ))
  export_rjettys [] = pure []
  export_rjettys (j ∷ js) = do
    rjetty ← export_rjetty p j
    rest ← export_rjettys js
    pure (rjetty ∷ rest)

  unfoldable pub import_peers : Context → List ℕ → TpType → List (List ℕ) → Io (List Peer)
  import_peers ctx seg_ctx tp [] = pure []
  import_peers ctx seg_ctx tp (rj ∷ rjs) = do
    peer ← import_ctx p ctx seg_ctx rj tp token_value
    or_drop (drop_peer peer) (import_peers ctx seg_ctx tp rjs >>= λ peers. pure (peer ∷ peers))

  unfoldable pub serve_jetties : ServeUrmaArgs → ℕ → ℕ → TransMode → Bool → ℕ → Context → Io Served
  serve_jetties a buf_len priority mode multi_path urma ctx = do
    cq ← Cq.new p ctx default_depth
    or_drop (drop_cq cq) (do
      jetties ←
          new_jetties a.jetties ctx cq (record default_opts {
            trans_mode = mode;
            multi_path = multi_path;
            priority = priority;
          })
      or_drop (drop_all drop_jetty jetties) (do
        buf ← new_registered_buf p ctx buf_len token_value
        or_drop (drop_seg buf) (do
          seg ← descriptor p buf
          seg_ctx ← export_seg_ctx p buf
          rjetty ← export_rjettys jetties
          pure (record {
            urma = urma;
            ctx = ctx;
            cq = cq;
            jetties = jetties;
            buf = buf;
            line = pack_desc (record { seg = seg; seg_ctx = seg_ctx; rjetty = rjetty });
          }))))

  -- `serve_urma_run` up to the point where it holds the segment for the peer.
  unfoldable pub serve_urma_start : ServeUrmaArgs → Io Served
  serve_urma_start a =
      if (a.jetties == 0) || ltb bw_max_jetties a.jetties
      then fail (invalid (text "--jetties must be 1..=64"))
      else (do
        ((mode, tp, multi_path), cap) ← preflight a.mode
        buf_len ← lift (resolve_buf_len a.buf_len a.sizes)
        urma ← init p
        or_drop (drop_urma urma) (do
          ctx ← Context.create p urma a.mode.dev
          or_drop (drop_context ctx) (
              serve_jetties a buf_len (resolve_priority a.priority cap tp) mode multi_path urma
                ctx)))

  -- `wait_read_spin`, where `spins` polls without a record fit into the 30 seconds.
  unfoldable pub wait_read_spin : ℕ → ℕ → Io Completion
  wait_read_spin zero cq = poll p cq >>= landed (fail (poll_timeout read_ctx))
  wait_read_spin (suc spins) cq = poll p cq >>= landed (wait_read_spin spins cq)
