-- ===== src/Lookup/Client.antt =====
-- examples/urma_lookup.rs: the URMA transport, its imports and its reads.
pub mod Reads
use urma_rs.Base.{
  ℕ, zero, suc, ◌+◌, ◌-◌, ◌*◌, ◌/◌, ◌^◌, ◌%◌, ◌==◌, ltb, leb, ◌&&◌, Bool, true, false, List, [],
  ◌∷◌, ◌++◌, Option, none, some, length, get_elem?, position, replicate, if◌then◌else◌,
}
use urma_rs.Error.{invalid, text, record_has_no_owner}
use urma_rs.Ffi.Liburma.{Liburma}
use urma_rs.Ffi.World.{World, Context}
use urma_rs.Ffi.Io.{Io, ◌>>=◌, ◌>>◌, pure, fail, lift, modify}
use urma_rs.Urma.Init.{init, drop_urma}
use urma_rs.Urma.Context.{drop_context}
use urma_rs.Urma.Context
use urma_rs.Urma.Cq.{Completion, wait_read, drop_cq}
use urma_rs.Urma.Cq
use urma_rs.Urma.Jetty
use urma_rs.Urma.Seg.{
  RegisteredSeg, sge, page_size, new_registered_buf, export_seg_ctx, descriptor, drop_seg,
}
use urma_rs.Urma.Jetty.{Jetty, default_opts, default_depth, token_value, export_rjetty, drop_jetty}
use urma_rs.Urma.Peer.{Peer, drop_peer}
use urma_rs.Urma.Post.{post_read}
use urma_rs.Common.Message.{msg_size}
use urma_rs.Common.Desc.{PeerDesc, check_loopback, desc_of}
use urma_rs.Common.Support.{check_mode_support, is_bonding}
use urma_rs.Common.Res.{or_drop}
use urma_rs.Common.Import.{import_peer}
use urma_rs.Lookup.Master.{OwnerInfo, owns, max_records_per_client}

-- `SCRATCH_OFF` of this example: the landing window lies behind all own records.
abbrev pub scratch_off : ℕ
scratch_off = max_records_per_client * msg_size

unfoldable pub buf_len : ℕ
buf_len = (scratch_off + msg_size + page_size - 1) / page_size * page_size

pub record UrmaTransport : Type 0 where
  pub ctx : Context
  pub cq : ℕ
  pub jetty : Jetty
  pub buf : RegisteredSeg
  pub seg_ctx : List ℕ
  pub rjetty : List ℕ
  pub peers : List (Option Peer)
  pub urma : ℕ

-- `peers.resize_with(idx + 1, || None)` where it is shorter.
abbrev pub resize : List (Option Peer) → ℕ → List (Option Peer)
resize peers idx =
    if leb (length peers) idx then peers ++ replicate (idx + 1 - length peers) none else peers

unfoldable pub set_peer : List (Option Peer) → ℕ → Peer → List (Option Peer)
set_peer [] i q = []
set_peer (x ∷ xs) zero q = some q ∷ xs
set_peer (x ∷ xs) (suc i) q = x ∷ set_peer xs i q

-- `self.peers[idx]`.
abbrev pub peer_at : List (Option Peer) → ℕ → Option Peer
peer_at peers idx = elim (get_elem? peers idx) [ none ↦ none | some q ↦ q ]

-- Where record `rid` lies in the memory of its owner.
unfoldable pub remote_va_of : OwnerInfo → ℕ → ℕ
remote_va_of o rid = (o.desc.seg_va + (rid - o.first_record_id) * msg_size) % 2 ^ 64

-- Whether record `rid` is the client's own.
abbrev pub is_own : ℕ → ℕ → ℕ → Bool
is_own my_first records rid = leb my_first rid && ltb rid ((my_first + records) % 2 ^ 32)

-- The peer that an assignment to a slot of the table drops.
abbrev drop_slot : Option Peer → World → World
drop_slot none w = w
drop_slot (some q) w = drop_peer q w

module _ (p : Liburma) where
  -- `UrmaTransport::new`.
  unfoldable pub new_transport : List ℕ → Io UrmaTransport
  new_transport dev = do
    check_mode_support p dev
    urma ← init p
    or_drop (drop_urma urma) (do
      ctx ← Context.create p urma dev
      or_drop (drop_context ctx) (do
        cq ← Cq.new p ctx default_depth
        or_drop (drop_cq cq) (do
          jetty ← Jetty.new p ctx cq (record default_opts { multi_path = is_bonding dev })
          or_drop (drop_jetty jetty) (do
            buf ← new_registered_buf p ctx buf_len token_value
            or_drop (drop_seg buf) (do
              seg_ctx ← export_seg_ctx p buf
              rjetty ← export_rjetty p jetty
              pure (record {
                ctx = ctx;
                cq = cq;
                jetty = jetty;
                buf = buf;
                seg_ctx = seg_ctx;
                rjetty = rjetty;
                peers = [];
                urma = urma;
              }))))))

  unfoldable pub desc : UrmaTransport → Io PeerDesc
  unfolding descriptor desc_of
  desc tr = do seg ← descriptor p tr.buf; pure (desc_of seg tr.jetty.id tr.seg_ctx tr.rjetty)

  -- `import`: the table of peers afterwards.
  unfoldable pub import : UrmaTransport → ℕ → OwnerInfo → Io UrmaTransport
  unfolding set_peer desc
  import tr idx o = do
    my ← desc tr
    lift (check_loopback my o.desc)
    peer ← import_peer p tr.ctx o.desc
    modify (drop_slot (peer_at tr.peers idx))
    pure (record tr { peers = set_peer (resize tr.peers idx) idx peer })

  -- `read_record`, up to the completion after which the landing window holds the record.
  unfoldable pub read_record : UrmaTransport → ℕ → OwnerInfo → ℕ → Io Completion
  unfolding remote_va_of
  read_record tr idx o rid = elim (peer_at tr.peers idx) [
    | none ↦ fail (invalid (text "owner not imported"))
    | some peer ↦ (do
      window ← lift (sge tr.buf scratch_off msg_size)
      post_read p tr.jetty peer (remote_va_of o rid) (window ∷ []) rid
      wait_read p tr.cq rid)
  ]
