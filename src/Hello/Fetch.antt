-- ===== src/Hello/Fetch.antt =====
-- examples/urma_hello.rs: the READ of the client.
use urma_rs.Base.{ℕ, [], ◌∷◌}
use urma_rs.Ffi.Liburma.{Liburma}
use urma_rs.Ffi.Io.{Io, ◌>>=◌, ◌>>◌, pure, lift, dropping}
use urma_rs.Urma.Cq.{wait_read}
use urma_rs.Urma.Seg.{sge}
use urma_rs.Urma.Peer.{Peer, drop_peer}
use urma_rs.Urma.Post.{post_read}
use urma_rs.Common.Message.{msg_size, scratch_off}
use urma_rs.Common.Desc.{PeerDesc}
use urma_rs.Common.Import.{import_peer}
use urma_rs.Common.Res.{UrmaRes}

abbrev pub read_ctx : ℕ
read_ctx = 0x1234

module _ (p : Liburma) where
  unfoldable pub read_into : UrmaRes → PeerDesc → Peer → Io (Unit {0})
  read_into r info peer = do
    window ← lift (sge r.buf scratch_off msg_size)
    post_read p r.jetty peer info.seg_va (window ∷ []) read_ctx
    cr ← wait_read p r.cq read_ctx
    pure tt

  unfoldable pub fetch : UrmaRes → PeerDesc → Io (Unit {0})
  fetch r info = do
    peer ← import_peer p r.ctx info
    dropping (drop_peer peer) (read_into r info peer)
