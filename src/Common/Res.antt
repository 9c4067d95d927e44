-- ===== src/Common/Res.antt =====
-- examples/common/mod.rs: `UrmaRes`, the bundle of resources of one node.
pub mod Scope
pub mod Failure
use urma_rs.Base.{ℕ, Bool, List, Option, none, some, if◌then◌else◌}
use urma_rs.Error.{ok, err}
use urma_rs.Ffi.Liburma.{Liburma}
use urma_rs.Ffi.World.{World, Context}
use urma_rs.Ffi.Io.{Io, ◌>>=◌, ◌>>◌, pure}
use urma_rs.Urma.Init.{init, drop_urma}
use urma_rs.Urma.Context.{drop_context}
use urma_rs.Urma.Context
use urma_rs.Urma.Cq.{drop_cq}
use urma_rs.Urma.Cq
use urma_rs.Urma.Seg.{RegisteredSeg, new_registered_buf, export_seg_ctx, descriptor, drop_seg}
use urma_rs.Urma.Jetty.{Jetty, drop_jetty, default_opts, default_depth, token_value, export_rjetty}
use urma_rs.Urma.Jetty
use urma_rs.Common.Message.{buf_size}
use urma_rs.Common.Desc.{PeerDesc, desc_of}
use urma_rs.Common.Support.{check_mode_support, is_bonding}

-- What the scope of a local drops when a later step fails.
abbrev pub or_drop : {A : Type 0} → (World → World) → Io A → Io A
or_drop f m w = let (r, w') = m w in elim r [ ok a ↦ (ok a, w') | err e ↦ (err e, f w') ]

-- The message that is copied into the buffer is data of the process, and is not modelled here.
pub record UrmaRes : Type 0 where
  pub ctx : Context
  pub cq : ℕ
  pub jetty : Jetty
  pub buf : RegisteredSeg
  pub seg_ctx : List ℕ
  pub rjetty : List ℕ
  pub urma : ℕ

module _ (p : Liburma) where
  unfoldable pub create : List ℕ → Io UrmaRes
  create dev = do
    check_mode_support p dev
    urma ← init p
    or_drop (drop_urma urma) (do
      ctx ← Context.create p urma dev
      or_drop (drop_context ctx) (do
        cq ← Cq.new p ctx default_depth
        or_drop (drop_cq cq) (do
          jetty ← Jetty.new p ctx cq (record default_opts { multi_path = is_bonding dev })
          or_drop (drop_jetty jetty) (do
            buf ← new_registered_buf p ctx buf_size token_value
            or_drop (drop_seg buf) (do
              seg_ctx ← export_seg_ctx p buf
              rjetty ← export_rjetty p jetty
              pure (record {
                ctx = ctx;
                cq = cq;
                jetty = jetty;
                buf = buf;
                seg_ctx = seg_ctx;
                rjetty = rjetty;
                urma = urma;
              }))))))

  -- In hook mode there are no resources.
  unfoldable pub res_opt : Bool → List ℕ → Io (Option UrmaRes)
  res_opt tcp_hook dev = if tcp_hook then pure none else (do r ← create dev; pure (some r))

  unfoldable pub desc : UrmaRes → Io PeerDesc
  unfolding descriptor desc_of
  desc r = do seg ← descriptor p r.buf; pure (desc_of seg r.jetty.id r.seg_ctx r.rjetty)

-- The drop of the bundle: its fields in their order.
unfoldable pub drop_res : UrmaRes → World → World
drop_res r w =
    drop_urma r.urma (drop_seg r.buf (drop_jetty r.jetty (drop_cq r.cq (drop_context r.ctx w))))
