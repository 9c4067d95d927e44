-- ===== src/Common/Res/Failure.antt =====
-- Resources that cannot be made in full are given back.
use urma_rs.Base.{ℕ, suc, ◌<◌, ◌≡◌, refl, ◌∙◌, sym, subst, List, some, get_elem?, inl, inr, arith}
use urma_rs.Error.{Error, Result, ok, err}
use urma_rs.Ffi.Liburma.{Liburma}
use urma_rs.Ffi.World.{World, Context, ContextInner, CqInner, Rc, Boxes}
use urma_rs.Ffi.Io.{Io, ◌>>=◌, continue, pure}
use urma_rs.Urma.Init.{init, drop_urma}
use urma_rs.Urma.Context.{drop_context}
use urma_rs.Urma.Context
use urma_rs.Urma.Cq.{drop_cq}
use urma_rs.Urma.Cq
use urma_rs.Urma.Jetty
use urma_rs.Urma.Jetty.{
  Jetty, JettyOpts, default_opts, default_depth, token_value, drop_jetty, export_rjetty,
}
use urma_rs.Urma.Seg.{new_registered_buf, export_seg_ctx, drop_seg}
use urma_rs.Urma.Device.{query_device}
use urma_rs.Urma.Release.{held}
use urma_rs.Urma.Release.Scope.{
  Same, Same-trans, then-Same, congr_of, drop_seg-trace, new_registered_buf-fails,
}
use urma_rs.Urma.Release.Drop.{
  drop_jetty-new, drop_seg-new_registered_buf, drop_cq-new, drop_context-create,
}
use urma_rs.Cli.Run.Start.{IsReady, held-init, init_live, held-drop_urma, query_device-IsRestored}
use urma_rs.Cli.Run.Release.{jetty-new-fails, jetty-new-contexts, drop_jetty-trace}
use urma_rs.Cli.Run.Queue.{SameButCqs, SameButCqs-trans, drop_cq_trace, cq_new_fails, cq_new_live}
use urma_rs.Cli.Run.Whole.{drop_context_frame, context_create_fails, context_create_live}
use urma_rs.Common.Message.{buf_size}
use urma_rs.Common.Support.{check_mode_support, is_bonding}
use urma_rs.Common.Scope.{Result-cases}
use urma_rs.Common.Res.{UrmaRes, create, or_drop}
use urma_rs.Common.Res.Scope.{Held, or_drop-fails, IsTidy, export_seg_ctx-Same, export_rjetty-Same}

module _ (p : Liburma) (tidy : IsTidy p) where
  module _ (ctx : Context) (cq : ℕ) (jetty : Jetty) (urma : ℕ) where
    -- `create` from the buffer on.
    abbrev with_jetty : Io UrmaRes
    with_jetty = do
      buf ← new_registered_buf p ctx buf_size token_value
      or_drop (drop_seg buf) (do
        seg_ctx ← export_seg_ctx p buf
        rjetty ← export_rjetty p jetty
        pure (record {
          ctx = ctx;
          cq = cq;
          jetty = jetty;
          buf = buf;
          seg_ctx = seg_ctx;
          rjetty = rjetty;
          urma = urma;
        }))

    with_jetty-fails :
        (b : Rc ContextInner) (w : World) (e : Error)
        → get_elem? w.contexts ctx.inner ≡ some b
        → 0 < b.strong
        → (with_jetty w).0 ≡ err e
        → Same w (with_jetty w).1
    with_jetty-fails b w e at live k =
        let made = new_registered_buf p ctx buf_size token_value w in
        or_drop-fails Same Same drop_seg _ made.0 w made.1
          (new_registered_buf-fails p ctx buf_size token_value w)
          (λ s v j same.
            Same-trans w (drop_seg s made.1) (drop_seg s v)
              (drop_seg-new_registered_buf p w ctx b at live buf_size token_value s j)
              (congr_of (drop_seg s) (drop_seg-trace s) made.1 v same))
          (λ s e' j j'.
            let got = export_seg_ctx p s made.1 in
            then-Same got.0 _ made.1 got.1 (export_seg_ctx-Same p tidy s made.1) (λ seg_ctx.
              let got' = export_rjetty p jetty got.1 in
              then-Same got'.0 _ got.1 got'.1 (export_rjetty-Same p tidy jetty got.1)
                (λ rjetty. (refl, refl))))
          e k

  module _ (ctx : Context) (dev : List ℕ) (urma : ℕ) where
    abbrev opts : JettyOpts
    opts = record default_opts { multi_path = is_bonding dev }

    -- From the jetty on.
    abbrev with_cq : ℕ → Io UrmaRes
    with_cq cq = do
      jetty ← Jetty.new p ctx cq opts
      or_drop (drop_jetty jetty) (with_jetty ctx cq jetty urma)

    with_cq-fails :
        (b : Rc ContextInner) (q : Rc CqInner) (cq : ℕ) (w : World) (e : Error)
        → get_elem? w.contexts ctx.inner ≡ some b
        → 0 < b.strong
        → get_elem? w.cqs cq ≡ some q
        → 0 < q.strong
        → (with_cq cq w).0 ≡ err e
        → Same w (with_cq cq w).1
    with_cq-fails b q cq w e at live at' live' k =
        let made = Jetty.new p ctx cq opts w in
        or_drop-fails Same Same drop_jetty (λ jetty. with_jetty ctx cq jetty urma) made.0 w made.1
          (λ e' j. jetty-new-fails p ctx cq opts w e' (omega arith) j)
          (λ x v j same.
            Same-trans w (drop_jetty x made.1) (drop_jetty x v)
              (drop_jetty-new p w ctx cq q opts x at' live' j)
              (congr_of (drop_jetty x) (drop_jetty-trace p ctx x) made.1 v same))
          (λ x e' j j'.
            with_jetty-fails ctx cq x urma b made.1 e'
              (subst (λ (xs : Boxes ContextInner). get_elem? xs ctx.inner ≡ some b)
                (sym (jetty-new-contexts p ctx cq opts w x j)) at)
              live j')
          e k

    -- From the queue on.
    abbrev with_context : Io UrmaRes
    with_context = do cq ← Cq.new p ctx default_depth; or_drop (drop_cq cq) (with_cq cq)

    with_context-fails :
        (b : Rc ContextInner) (w : World) (e : Error)
        → get_elem? w.contexts ctx.inner ≡ some b
        → 0 < b.strong
        → (with_context w).0 ≡ err e
        → SameButCqs w (with_context w).1
    with_context-fails b w e at live k =
        let made = Cq.new p ctx default_depth w in
        or_drop-fails SameButCqs Same drop_cq with_cq made.0 w made.1
          (λ e' j.
            SameButCqs-trans w w made.1 (refl, refl) (cq_new_fails p ctx default_depth w e' j))
          (λ cq v j same.
            SameButCqs-trans w (drop_cq cq made.1) (drop_cq cq v)
              (drop_cq-new p w ctx b default_depth cq at live j)
              (congr_of (drop_cq cq) (drop_cq_trace cq) made.1 v same))
          (λ cq e' j j'.
            let (c, (q, d)) = cq_new_live p ctx b default_depth cq w at j in
            with_cq-fails (record b { strong = suc b.strong }) (record { strong = 1; value = q }) cq
              made.1 e' c (omega arith) d (omega arith) j')
          e k

  -- From the context on.
  abbrev with_urma : List ℕ → ℕ → Io UrmaRes
  with_urma dev urma = do
    ctx ← Context.create p urma dev
    or_drop (drop_context ctx) (with_context ctx dev urma)

  with_urma-fails :
      (dev : List ℕ) (urma : ℕ) (g : Rc (Unit {0})) (w : World) (e : Error)
      → get_elem? w.urmas urma ≡ some g
      → 0 < g.strong
      → (with_urma dev urma w).0 ≡ err e
      → Held w (with_urma dev urma w).1
  with_urma-fails dev urma g w e at live k =
      let made = Context.create p urma dev w in
      or_drop-fails Held SameButCqs drop_context (λ ctx. with_context ctx dev urma) made.0 w made.1
        (context_create_fails p urma dev w)
        (λ c v j same.
          drop_context_frame c made.1 v same ∙ (drop_context-create p w urma g dev c at live j).0)
        (λ c e' j j'.
          let (b, at', live') = context_create_live p urma dev w c j in
          with_context-fails c dev urma b made.1 e' at' live' j')
        e k

  then-Held :
      {A B : Type 0} (r : Result A) (f : A → Io B) (w w1 : World)
      → Held w w1
      → ((x : A) (e : Error) → (f x w1).0 ≡ err e → Held w1 (f x w1).1)
      → (e : Error) → (continue r f w1).0 ≡ err e
      → Held w (continue r f w1).1
  then-Held (ok x) f w w1 h k e j = k x e j ∙ h
  then-Held (err e') f w w1 h k e j = h

  guarded-fails :
      (dev : List ℕ) (w : World)
      → IsReady w
      → (e : Error)
      → ((init p >>= λ urma. or_drop (drop_urma urma) (with_urma dev urma)) w).0 ≡ err e
      → Held w ((init p >>= λ urma. or_drop (drop_urma urma) (with_urma dev urma)) w).1
  guarded-fails dev w ready e k =
      let begun = init p w in
      or_drop-fails Held Held drop_urma (with_urma dev) begun.0 w begun.1 (λ e' j. held-init p w)
        (λ u v j same. held-drop_urma u v ∙ same ∙ held-init p w)
        (λ u e' j j'.
          let (g, at, live) = init_live p w u ready j in
          with_urma-fails dev u g begun.1 e' at live j')
        e k

  check_mode_support-quiet :
      (dev : List ℕ) (w : World) → (check_mode_support p dev w).1 ≡ (query_device p dev w).1
  unfolding check_mode_support
  check_mode_support-quiet dev w = elim (Result-cases (query_device p dev w).0) [
    | inl (cap, j) ↦ ground (arith, j)
    | inr (e, j) ↦ ground (arith, j)
  ]

  -- With a library that hands out no buffer with an error status, and where the thread has no guard
  -- of it yet or a live one, UrmaRes::create, where it fails, at whatever step, leaves held what
  -- was held before.
  pub create-fails :
      (dev : List ℕ) (w : World) (e : Error)
      → IsReady w
      → (create p dev w).0 ≡ err e
      → held (create p dev w).1.trace ≡ held w.trace
  unfolding create
  create-fails dev w e ready k =
      let checked = check_mode_support p dev w in
      let quiet = sym (check_mode_support-quiet dev w) in
      let (again, same) = query_device-IsRestored p dev w ready in
      then-Held checked.0 _ w checked.1 (subst (Held w) quiet same)
        (λ u e' j. guarded-fails dev checked.1 (subst IsReady quiet again) e' j) e k
