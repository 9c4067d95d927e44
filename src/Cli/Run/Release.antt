-- ===== src/Cli/Run/Release.antt =====
-- What `read` gives back when it ends, on success and on failure.
use urma_rs.Base.{
  ℕ, ◌+◌, ◌%◌, ◌^◌, suc, ◌<◌, ◌≤◌, max, ◌≡◌, refl, sym, subst, Bool, ◌∷◌, [], some, get_elem?,
  arith,
}
use urma_rs.Error.{Error, ok, err}
use urma_rs.Ffi.Liburma.{Liburma, Trace}
use urma_rs.Ffi.World.{World, Context, ContextInner, CqInner, Rc, Boxes}
use urma_rs.Ffi.Io.{◌>>=◌, dropping}
use urma_rs.Urma.Modes.{TransMode, TpType}
use urma_rs.Urma.Init.{drop_urma}
use urma_rs.Urma.Context.{drop_context}
use urma_rs.Urma.Cq.{drop_cq, wait_read, poll_retries}
use urma_rs.Urma.Seg.{RegisteredSeg, drop_seg, new_registered_buf, sge, page_size}
use urma_rs.Urma.Jetty.{JettyOpts, Jetty, drop_jetty, default_opts, default_depth, token_value}
use urma_rs.Urma.Jetty
use urma_rs.Urma.Peer.{Peer, drop_peer, import_ctx}
use urma_rs.Urma.Post.{post_read}
use urma_rs.Urma.Release.{held}
use urma_rs.Urma.Release.Drop.{drop_seg-new_registered_buf, drop_jetty-new}
use urma_rs.Urma.Release.Scope.{
  Same, scope-Same, then-Same, congr_of, drop_peer-trace, drop_seg-trace, import_ctx-fails,
  new_registered_buf-fails, post_read-Same, wait_loop-Same, drop_peer-import_ctx,
}
use urma_rs.Cli.Desc.{WireDesc}
use urma_rs.Cli.Run.{ReadArgs, read_ctx, read_landing, read_with, read_jetty}

post_and_wait-Same :
    (p : Liburma) (a : ReadArgs) (wire : WireDesc) (cq : ℕ) (jetty : Jetty) (peer : Peer)
    (landing : RegisteredSeg) (w : World)
    → Same w (read_landing p a wire cq jetty peer landing w).1
unfolding read_landing wait_read
post_and_wait-Same p a wire cq jetty peer landing w =
    then-Same (sge landing 0 (a.len % 2 ^ 32)) _ w w (refl, refl)
      (λ local.
        then-Same
          (post_read p jetty peer ((wire.seg.va + a.offset) % 2 ^ 64) (local ∷ []) read_ctx w).0 _ w
          (post_read p jetty peer ((wire.seg.va + a.offset) % 2 ^ 64) (local ∷ []) read_ctx w).1
          (post_read-Same p jetty peer ((wire.seg.va + a.offset) % 2 ^ 64) (local ∷ []) read_ctx w)
          (λ u.
            wait_loop-Same p poll_retries cq read_ctx
              (post_read p jetty peer ((wire.seg.va + a.offset) % 2 ^ 64) (local ∷ []) read_ctx
                w).1))

module _ (p : Liburma) (ctx : Context) (b : Rc ContextInner) (w : World)
    (at : get_elem? w.contexts ctx.inner ≡ some b) (live : 0 < b.strong) where
  landed-Same :
      (a : ReadArgs) (wire : WireDesc) (cq : ℕ) (jetty : Jetty) (peer : Peer)
      → Same w
          ((new_registered_buf p ctx (max page_size a.len) token_value >>= λ landing.
              dropping (drop_seg landing) (read_landing p a wire cq jetty peer landing))
            w).1
  landed-Same a wire cq jetty peer =
      let len = max page_size a.len in
      let made = new_registered_buf p ctx len token_value w in
      scope-Same drop_seg (read_landing p a wire cq jetty peer)
        (λ s. congr_of (drop_seg s) (drop_seg-trace s)) made.0 w made.1
        (new_registered_buf-fails p ctx len token_value w)
        (drop_seg-new_registered_buf p w ctx b at live len token_value)
        (λ s e. post_and_wait-Same p a wire cq jetty peer s made.1)

module _ (p : Liburma) (ctx : Context) where
  read_with-Same :
      (b : Rc ContextInner) (w : World)
      → get_elem? w.contexts ctx.inner ≡ some b
      → 0 < b.strong
      → (a : ReadArgs) (wire : WireDesc) (tp : TpType) (cq : ℕ) (jetty : Jetty)
      → Same w (read_with p a wire tp ctx cq jetty w).1
  unfolding read_with
  read_with-Same b w at live a wire tp cq jetty =
      let made = import_ctx p ctx wire.seg_ctx wire.rjetty tp token_value w in
      scope-Same drop_peer
        (λ q. new_registered_buf p ctx (max page_size a.len) token_value >>= λ landing.
          dropping (drop_seg landing) (read_landing p a wire cq jetty q landing))
        (λ q. congr_of (drop_peer q) (drop_peer-trace q)) made.0 w made.1
        (import_ctx-fails p ctx wire.seg_ctx wire.rjetty tp token_value w)
        (λ q e.
          (drop_peer-import_ctx p ctx b w at live wire.seg_ctx wire.rjetty tp token_value q e).0)
        (λ q e.
          landed-Same p ctx (record b { strong = suc b.strong }) made.1
            (drop_peer-import_ctx p ctx b w at live wire.seg_ctx wire.rjetty tp token_value q e).1
            (omega arith) a wire cq jetty q)

  pub jetty-new-fails :
      (cq : ℕ) (opts : JettyOpts) (w : World) (e : Error)
      → opts.priority ≤ 15
      → (Jetty.new p ctx cq opts w).0 ≡ err e
      → Same w (Jetty.new p ctx cq opts w).1
  unfolding Jetty.new held
  jetty-new-fails cq opts w e h k = ground arith

  pub jetty-new-contexts :
      (cq : ℕ) (opts : JettyOpts) (w : World) (j : Jetty)
      → (Jetty.new p ctx cq opts w).0 ≡ ok j
      → (Jetty.new p ctx cq opts w).1.contexts ≡ w.contexts
  unfolding Jetty.new
  jetty-new-contexts cq opts w j k = ground arith

  pub drop_jetty-trace :
      (j : Jetty) (w : World) (t : Trace)
      → held t ≡ held w.trace
      → Same (drop_jetty j w) (drop_jetty j (record w { trace = t }))
  unfolding drop_jetty drop_cq drop_context drop_urma held
  drop_jetty-trace j w t h = ground arith

  pub read_jetty-Same :
      (b : Rc ContextInner) (q : Rc CqInner) (w : World) (cq : ℕ)
      → get_elem? w.contexts ctx.inner ≡ some b
      → 0 < b.strong
      → get_elem? w.cqs cq ≡ some q
      → 0 < q.strong
      → (a : ReadArgs) (wire : WireDesc) (mode : TransMode) (tp : TpType) (multi_path : Bool)
      → Same w (read_jetty p a wire (mode, tp, multi_path) ctx cq w).1
  unfolding read_jetty
  read_jetty-Same b q w cq at live at' live' a wire mode tp multi_path =
      let opts : JettyOpts = record default_opts { trans_mode = mode; multi_path = multi_path } in
      let made = Jetty.new p ctx cq opts w in
      scope-Same drop_jetty (read_with p a wire tp ctx cq)
        (λ j. congr_of (drop_jetty j) (drop_jetty-trace j)) made.0 w made.1
        (λ e k. jetty-new-fails cq opts w e (omega arith) k)
        (λ j k. drop_jetty-new p w ctx cq q opts j at' live' k)
        (λ j k.
          read_with-Same b made.1
            (subst (λ (xs : Boxes ContextInner). get_elem? xs ctx.inner ≡ some b)
              (sym (jetty-new-contexts cq opts w j k)) at)
            live a wire tp cq j)
