-- ===== src/Cli/Run.antt =====
-- examples/urma_cli.rs: `serve` and `read`. What they print is not modelled but for the descriptor.
pub mod Range
pub mod Release
pub mod Queue
pub mod Start
pub mod Whole
use urma_rs.Base.{
  ℕ, ◌+◌, ◌%◌, ◌^◌, max, ltb, ◌==◌, String, Bool, true, false, List, [], ◌∷◌, ◌++◌, Option, none,
  some, length, if◌then◌else◌,
}
use urma_rs.Error.{Result, ok, err, invalid, text, msg_exceeds_buf_len, offset_exceeds_peer}
use urma_rs.Ffi.Liburma.{Liburma}
use urma_rs.Ffi.World.{World, Context}
use urma_rs.Ffi.Io.{Io, ◌>>=◌, ◌>>◌, pure, fail, lift, dropping}
use urma_rs.Urma.Values.{SegDesc}
use urma_rs.Urma.Modes.{TransMode, TpType}
use urma_rs.Urma.Init.{init, drop_urma}
use urma_rs.Urma.Context.{drop_context}
use urma_rs.Urma.Context
use urma_rs.Urma.Cq.{Completion, drop_cq, wait_read}
use urma_rs.Urma.Cq
use urma_rs.Urma.Seg.{
  RegisteredSeg, page_size, new_registered_buf, export_seg_ctx, descriptor, drop_seg, sge,
}
use urma_rs.Urma.Jetty.{Jetty, drop_jetty, default_opts, default_depth, token_value, export_rjetty}
use urma_rs.Urma.Jetty
use urma_rs.Urma.Peer.{Peer, drop_peer, import_ctx}
use urma_rs.Urma.Post.{post_read}
use urma_rs.Common.Res.{or_drop}
use urma_rs.Common.Desc.{same_bytes}
use urma_rs.Cli.Preflight.{ModeArgs, preflight}
use urma_rs.Cli.Desc.{WireDesc, pack_desc, unpack_desc}

abbrev pub read_ctx : ℕ
read_ctx = 0x1a7

pub record ServeArgs : Type 0 where
  pub mode : ModeArgs
  pub msg : Option (List ℕ)
  pub buf_len : ℕ

pub record ReadArgs : Type 0 where
  pub mode : ModeArgs
  pub desc : List ℕ
  pub offset : ℕ
  pub len : ℕ

-- What `serve` holds for the peer, the text at the start of its segment, and the line it prints.
pub record Served : Type 0 where
  pub urma : ℕ
  pub ctx : Context
  pub cq : ℕ
  pub jetty : Jetty
  pub buf : RegisteredSeg
  pub msg : List ℕ
  pub line : List ℕ

-- "hello from urma-cli@{hostname}".
abbrev hello : List ℕ → List ℕ
hello hostname =
    b'h' ∷ b'e' ∷ b'l' ∷ b'l' ∷ b'o' ∷ b' ' ∷ b'f' ∷ b'r' ∷ b'o' ∷ b'm' ∷ b' ' ∷ b'u' ∷ b'r' ∷ b'm'
    ∷ b'a' ∷ b'-' ∷ b'c' ∷ b'l' ∷ b'i' ∷ b'@' ∷ hostname

unfoldable pub msg_of : Option (List ℕ) → List ℕ → List ℕ
msg_of (some msg) hostname = msg
msg_of none hostname = hello hostname

unfoldable pub check_msg : List ℕ → ℕ → Result (Unit {0})
check_msg msg buf_len =
    if ltb buf_len (length msg)
    then err (invalid (msg_exceeds_buf_len (length msg) buf_len))
    else ok tt

-- Is the argument "-"?
unfoldable pub is_dash : List ℕ → Bool
is_dash [] = false
is_dash (c ∷ []) = c == b'-'
is_dash (c ∷ d ∷ s) = false

-- `a.offset + a.len` of two u64 wraps in a release build.
unfoldable pub check_range : ReadArgs → SegDesc → Result (Unit {0})
check_range a seg =
    if ltb seg.len ((a.offset + a.len) % 2 ^ 64)
    then err (invalid (offset_exceeds_peer a.offset a.len seg.len))
    else ok tt

abbrev pub own_eid : String
own_eid =
    "peer eid equals this context's eid: single-machine loopback crashes inside liburma's import path; run `serve` on another node"

module _ (p : Liburma) where
  -- `serve` up to the point where it holds the segment for the peer. A later failure drops what
  -- was made before.
  unfoldable pub serve_start : ServeArgs → List ℕ → Io Served
  serve_start a hostname = do
    (mode, tp, multi_path) ← preflight p a.mode
    let msg = msg_of a.msg hostname
    lift (check_msg msg a.buf_len)
    urma ← init p
    or_drop (drop_urma urma) (do
      ctx ← Context.create p urma a.mode.dev
      or_drop (drop_context ctx) (do
        cq ← Cq.new p ctx default_depth
        or_drop (drop_cq cq) (do
          jetty ←
              Jetty.new p ctx cq
                (record default_opts { trans_mode = mode; multi_path = multi_path })
          or_drop (drop_jetty jetty) (do
            buf ← new_registered_buf p ctx a.buf_len token_value
            or_drop (drop_seg buf) (do
              seg ← descriptor p buf
              seg_ctx ← export_seg_ctx p buf
              rjetty ← export_rjetty p jetty
              pure (record {
                urma = urma;
                ctx = ctx;
                cq = cq;
                jetty = jetty;
                buf = buf;
                msg = msg;
                line = pack_desc (record { seg = seg; seg_ctx = seg_ctx; rjetty = rjetty });
              }))))))

  -- The READ into the landing buffer, and its completion.
  unfoldable pub read_landing :
      ReadArgs → WireDesc → ℕ → Jetty → Peer → RegisteredSeg → Io Completion
  read_landing a wire cq jetty peer landing = do
    local ← lift (sge landing 0 (a.len % 2 ^ 32))
    post_read p jetty peer ((wire.seg.va + a.offset) % 2 ^ 64) (local ∷ []) read_ctx
    wait_read p cq read_ctx

  -- `read` from its own jetty on: the peer, the buffer, the READ and its completion.
  unfoldable pub read_with : ReadArgs → WireDesc → TpType → Context → ℕ → Jetty → Io Completion
  read_with a wire tp ctx cq jetty = do
    peer ← import_ctx p ctx wire.seg_ctx wire.rjetty tp token_value
    dropping (drop_peer peer) (do
      landing ← new_registered_buf p ctx (max page_size a.len) token_value
      dropping (drop_seg landing) (read_landing a wire cq jetty peer landing))

  -- `read` from its own queue on.
  unfoldable pub read_jetty :
      ReadArgs → WireDesc → TransMode × TpType × Bool → Context → ℕ → Io Completion
  read_jetty a wire (mode, tp, multi_path) ctx cq = do
    jetty ← Jetty.new p ctx cq (record default_opts { trans_mode = mode; multi_path = multi_path })
    dropping (drop_jetty jetty) (read_with a wire tp ctx cq jetty)

  unfoldable pub read_cq : ReadArgs → WireDesc → TransMode × TpType × Bool → Context → Io Completion
  read_cq a wire chosen ctx = do
    cq ← Cq.new p ctx default_depth
    dropping (drop_cq cq) (read_jetty a wire chosen ctx cq)

  -- `read` from the guard against the own eid on.
  unfoldable pub read_peer :
      ReadArgs → WireDesc → TransMode × TpType × Bool → Context → Io Completion
  read_peer a wire chosen ctx =
      if same_bytes wire.seg.eid.bytes ctx.eid.bytes
      then fail (invalid (text own_eid))
      else read_cq a wire chosen ctx

  -- `read` from the library on.
  unfoldable pub read_urma : ReadArgs → WireDesc → TransMode × TpType × Bool → Io Completion
  read_urma a wire chosen = do
    urma ← init p
    dropping (drop_urma urma) (do
      ctx ← Context.create p urma a.mode.dev
      dropping (drop_context ctx) (read_peer a wire chosen ctx))

  unfoldable pub read_run : ReadArgs → Result (List ℕ) → Io Completion
  read_run a stdin = do
    desc_hex ← lift (if is_dash a.desc then stdin else ok a.desc)
    wire ← lift (unpack_desc desc_hex)
    lift (check_range a wire.seg)
    chosen ← preflight p a.mode
    read_urma a wire chosen

-- The end of `serve`: its locals are dropped, the last one first.
unfoldable pub drop_served : Served → World → World
drop_served s w =
    drop_urma s.urma (drop_context s.ctx (drop_cq s.cq (drop_jetty s.jetty (drop_seg s.buf w))))
