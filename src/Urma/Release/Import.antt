-- ===== src/Urma/Release/Import.antt =====
-- What registration, import, export and the opening of a context leave held.
use urma_rs.Base.{ℕ, ◌==ℤ◌, false, ◌≡◌, List, [], ◌∷◌, Option, some, none, arith}
use urma_rs.Ffi.Consts.{urma_success}
use urma_rs.Ffi.Liburma.{Liburma, Event, SegArg, RjettyArg}
use urma_rs.Ffi.Structs.{UrmaToken}
use urma_rs.Ffi.World.{World, Context, ContextInner, rc_value}
use urma_rs.Urma.Modes.{TpType}
use urma_rs.Urma.Seg.{RegisteredSeg, PageBuf, new_registered_buf, export_seg_ctx}
use urma_rs.Urma.Jetty.{Jetty, export_rjetty}
use urma_rs.Urma.Peer.{Peer, import_pair, import_ctx}
use urma_rs.Urma.Context
use urma_rs.Urma.Release.{Held, held, context, seg, target_seg, target_jetty, memory}
use urma_rs.Urma.Release.Create.{Gains, one, get_elem?-append_last}

abbrev pub peer_held : World → Peer → List Held
peer_held w q = one target_jetty q.tjetty ∷ one target_seg q.tseg ∷ []

abbrev pub buf_held : Option PageBuf → List Held
buf_held none = []
buf_held (some b) = one memory b.ptr ∷ []

abbrev pub seg_held : World → RegisteredSeg → List Held
seg_held w s = one seg s.tseg ∷ buf_held s.buf

abbrev pub nothing {ℓ} : {A : Type ℓ} → World → A → List Held
nothing w a = []

abbrev pub context_held : World → Context → List Held
context_held w c = elim (rc_value w.contexts c.inner) [
  | none ↦ []
  | some i ↦ one context i.raw ∷ []
]

module _ (p : Liburma) where
  -- For any answers, the pair of imports behind both forms of Peer import leaves held the target
  -- segment and the target jetty on success, and nothing new on failure.
  pub import_pair-Gains :
      (ctx : Context) (s : SegArg) (j : RjettyArg) (token : UrmaToken) (w : World)
      → let r = import_pair p ctx s j token w in Gains peer_held (held w.trace) r.0 r.1
  unfolding import_pair held
  import_pair-Gains ctx s j token w = ground arith

  -- For any blobs, too short ones included, and any answers, Peer::import_ctx leaves held the two
  -- imports of the peer on success, and nothing new on failure.
  pub import_ctx-Gains :
      (ctx : Context) (seg_bytes rjetty_bytes : List ℕ) (tp : TpType) (token_value : ℕ) (w : World)
      → let r = import_ctx p ctx seg_bytes rjetty_bytes tp token_value w in
        Gains peer_held (held w.trace) r.0 r.1
  unfolding import_ctx held
  import_ctx-Gains ctx seg_bytes rjetty_bytes tp token_value w = ground arith

  -- RegisteredBuf::new leaves held the segment and its memory on success, and nothing new when the
  -- length, the allocation or the registration fails.
  pub new_registered_buf-Gains :
      (ctx : Context) (len token_value : ℕ) (w : World)
      → let r = new_registered_buf p ctx len token_value w in Gains seg_held (held w.trace) r.0 r.1
  unfolding new_registered_buf held
  new_registered_buf-Gains ctx len token_value w = ground arith

  -- If the library hands out no buffer with an error status, export_seg_ctx leaves nothing held, on
  -- success and on every failure.
  pub export_seg_ctx-Gains :
      (s : RegisteredSeg) (w : World)
      → let b = p.urma_get_seg_ctx w.trace s.tseg in
        ((b.status ==ℤ urma_success) ≡ false → b.raw ≡ 0)
        → let r = export_seg_ctx p s w in Gains nothing (held w.trace) r.0 r.1
  unfolding export_seg_ctx held
  export_seg_ctx-Gains s w failed = ground arith

  -- If the library hands out no buffer with an error status, export_rjetty leaves nothing held, on
  -- success and on every failure.
  pub export_rjetty-Gains :
      (j : Jetty) (w : World)
      → let b = p.urma_get_rjetty w.trace j.raw in
        ((b.status ==ℤ urma_success) ≡ false → b.raw ≡ 0)
        → let r = export_rjetty p j w in Gains nothing (held w.trace) r.0 r.1
  unfolding export_rjetty held
  export_rjetty-Gains j w failed = ground arith

  -- Context::create leaves held the context on success and nothing new on failure; the eid list is
  -- given back on every path.
  pub context-create-Gains :
      (urma : ℕ) (dev_name : List ℕ) (w : World)
      → let r = Context.create p urma dev_name w in Gains context_held (held w.trace) r.0 r.1
  unfolding Context.create held
  context-create-Gains urma dev_name w =
      let dev = p.urma_get_device_by_name w.trace dev_name in
      let tr = Event.urma_get_device_by_name dev_name dev ∷ w.trace in
      let eids = p.urma_get_eid_list tr dev in
      let i = (eids.info 0).eid_index in
      let tr' = Event.urma_free_eid_list eids.list ∷ Event.urma_get_eid_list dev eids.list ∷ tr in
      let inner : ContextInner = record { raw = p.urma_create_context tr' dev i; urma = urma } in
      ground (arith, get_elem?-append_last w.contexts (record { strong = 1; value = inner }))
