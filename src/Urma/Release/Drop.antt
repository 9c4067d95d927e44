-- ===== src/Urma/Release/Drop.antt =====
-- What a constructor leaves held, the drop of its value gives back.
use urma_rs.Base.{ℕ, ◌<◌, ◌≡◌, List, ◌∷◌, some, get_elem?, arith}
use urma_rs.Error.{ok}
use urma_rs.Ffi.Liburma.{Liburma, Event, SegArg, RjettyArg}
use urma_rs.Ffi.Structs.{UrmaToken, UrmaJfcCfg}
use urma_rs.Ffi.World.{World, Context, ContextInner, CqInner, Rc}
use urma_rs.Urma.Init.Handles.{rc_drop-rc_clone, rc_last-rc_clone}
use urma_rs.Urma.Init.{drop_urma}
use urma_rs.Urma.Context.{drop_context, context_raw}
use urma_rs.Urma.Context
use urma_rs.Urma.Cq.{drop_cq}
use urma_rs.Urma.Cq
use urma_rs.Urma.Seg.{RegisteredSeg, new_registered_buf, drop_seg}
use urma_rs.Urma.Jetty.{JettyOpts, Jetty, drop_jetty}
use urma_rs.Urma.Jetty
use urma_rs.Urma.Peer.{Peer, import_pair, drop_peer}
use urma_rs.Urma.Release.{held}
use urma_rs.Urma.Release.Create.{get_elem?-append_last}

module _ (p : Liburma) (w : World) where
  -- With a live completion queue, creating a jetty, where that succeeds, and dropping it leaves
  -- held what was held before, and everything else but the trace as it was, the counts of handles
  -- included.
  pub drop_jetty-new :
      (ctx : Context) (cq : ℕ) (b : Rc CqInner) (opts : JettyOpts) (j : Jetty)
      → get_elem? w.cqs cq ≡ some b
      → 0 < b.strong
      → (Jetty.new p ctx cq opts w).0 ≡ ok j
      → let w' = drop_jetty j (Jetty.new p ctx cq opts w).1 in
        (held w'.trace ≡ held w.trace) × (w' ≡ record w { trace = w'.trace })
  unfolding Jetty.new drop_jetty drop_cq held
  drop_jetty-new ctx cq b opts j at live made =
      ground (arith, rc_last-rc_clone w.cqs cq b at live, rc_drop-rc_clone w.cqs cq)

  module _ (ctx : Context) (b : Rc ContextInner) (at : get_elem? w.contexts ctx.inner ≡ some b)
      (live : 0 < b.strong) where
    -- With a live context, importing a peer, where that succeeds, and dropping it leaves held what
    -- was held before, and everything else but the trace as it was, the counts of handles included.
    pub drop_peer-import_pair :
        (s : SegArg) (rj : RjettyArg) (token : UrmaToken) (q : Peer)
        → (import_pair p ctx s rj token w).0 ≡ ok q
        → let w' = drop_peer q (import_pair p ctx s rj token w).1 in
          (held w'.trace ≡ held w.trace) × (w' ≡ record w { trace = w'.trace })
    unfolding import_pair drop_peer drop_context held
    drop_peer-import_pair s rj token q made = ground (
      arith,
      rc_last-rc_clone w.contexts ctx.inner b at live,
      rc_drop-rc_clone w.contexts ctx.inner,
    )

    -- With a live context, making a registered buffer, where that succeeds, and dropping it leaves
    -- held what was held before, the memory included, and everything else but the trace as it was,
    -- the counts of handles included.
    pub drop_seg-new_registered_buf :
        (len token_value : ℕ) (s : RegisteredSeg)
        → (new_registered_buf p ctx len token_value w).0 ≡ ok s
        → let w' = drop_seg s (new_registered_buf p ctx len token_value w).1 in
          (held w'.trace ≡ held w.trace) × (w' ≡ record w { trace = w'.trace })
    unfolding new_registered_buf drop_seg drop_context held
    drop_seg-new_registered_buf len token_value s made = ground (
      arith,
      rc_last-rc_clone w.contexts ctx.inner b at live,
      rc_drop-rc_clone w.contexts ctx.inner,
    )

  -- With a live context, creating a completion queue, where that succeeds, and dropping its only
  -- handle leaves held what was held before, and everything else but the trace and the boxes of
  -- queues as it was.
  pub drop_cq-new :
      (ctx : Context) (b : Rc ContextInner) (depth cq : ℕ)
      → get_elem? w.contexts ctx.inner ≡ some b
      → 0 < b.strong
      → (Cq.new p ctx depth w).0 ≡ ok cq
      → let w' = drop_cq cq (Cq.new p ctx depth w).1 in
        (held w'.trace ≡ held w.trace) × (w' ≡ record w { trace = w'.trace; cqs = w'.cqs })
  unfolding Cq.new drop_cq drop_context held
  drop_cq-new ctx b depth cq at live made =
      let raw = context_raw w ctx in
      let jfce' = p.urma_create_jfce w.trace raw in
      let cfg : UrmaJfcCfg = record {
        depth = depth;
        flag = record { value = 0 };
        ceqn = 0;
        jfce = jfce';
        user_ctx = 0;
      } in
      let jfc' = p.urma_create_jfc (Event.urma_create_jfce raw jfce' ∷ w.trace) raw cfg in
      let inner : CqInner = record { jfce = jfce'; jfc = jfc'; ctx = ctx } in
      ground (
        arith,
        get_elem?-append_last w.cqs (record { strong = 1; value = inner }),
        rc_last-rc_clone w.contexts ctx.inner b at live,
        rc_drop-rc_clone w.contexts ctx.inner,
      )

  -- With a live guard of the library, opening a device, where that succeeds, and dropping the only
  -- handle on the context leaves held what was held before, and everything else but the trace and
  -- the boxes of contexts as it was.
  pub drop_context-create :
      (urma : ℕ) (b : Rc (Unit {0})) (dev_name : List ℕ) (c : Context)
      → get_elem? w.urmas urma ≡ some b
      → 0 < b.strong
      → (Context.create p urma dev_name w).0 ≡ ok c
      → let w' = drop_context c (Context.create p urma dev_name w).1 in
        (held w'.trace ≡ held w.trace)
        × (w' ≡ record w { trace = w'.trace; contexts = w'.contexts })
  unfolding Context.create drop_context drop_urma held
  drop_context-create urma b dev_name c at live made =
      let dev = p.urma_get_device_by_name w.trace dev_name in
      let tr = Event.urma_get_device_by_name dev_name dev ∷ w.trace in
      let eids = p.urma_get_eid_list tr dev in
      let i = (eids.info 0).eid_index in
      let tr' = Event.urma_free_eid_list eids.list ∷ Event.urma_get_eid_list dev eids.list ∷ tr in
      let inner : ContextInner = record { raw = p.urma_create_context tr' dev i; urma = urma } in
      ground (
        arith,
        get_elem?-append_last w.contexts (record { strong = 1; value = inner }),
        rc_last-rc_clone w.urmas urma b at live,
        rc_drop-rc_clone w.urmas urma,
      )
