-- ===== src/Cli/Run/Queue.antt =====
-- `read` from the guard against its own eid on: what its queue and its jetty take is given back.
use urma_rs.Base.{
  ℕ, suc, ◌<◌, ◌≡◌, refl, ap, ◌∙◌, sym, Bool, true, false, ◌∷◌, some, get_elem?, if◌then◌else◌,
  arith,
}
use urma_rs.Error.{Error, Result, ok, err, invalid, text}
use urma_rs.Ffi.Liburma.{Liburma, Trace, Event}
use urma_rs.Ffi.Structs.{UrmaJfcCfg}
use urma_rs.Ffi.World.{World, Context, ContextInner, CqInner, Rc, Boxes}
use urma_rs.Ffi.Io.{Io, continue, dropping, fail}
use urma_rs.Urma.Modes.{TransMode, TpType}
use urma_rs.Urma.Init.{drop_urma}
use urma_rs.Urma.Context.{drop_context, clone_context, context_raw}
use urma_rs.Urma.Cq.{drop_cq, new_cq}
use urma_rs.Urma.Cq
use urma_rs.Urma.Jetty.{default_depth}
use urma_rs.Urma.Release.{held}
use urma_rs.Urma.Release.Create.{get_elem?-append_last}
use urma_rs.Urma.Release.Drop.{drop_cq-new}
use urma_rs.Common.Desc.{same_bytes}
use urma_rs.Cli.Desc.{WireDesc}
use urma_rs.Cli.Run.{ReadArgs, read_jetty, read_cq, read_peer, own_eid}
use urma_rs.Urma.Release.Scope.{Same, congr_of, get_elem?-rc_clone}
use urma_rs.Cli.Run.Release.{read_jetty-Same}

-- The same is held, and all but the trace and the boxes of queues is the same.
abbrev pub SameButCqs : World → World → Type 0
SameButCqs w w' =
    (held w'.trace ≡ held w.trace) × (w' ≡ record w { trace = w'.trace; cqs = w'.cqs })

pub SameButCqs-trans : (w1 w2 w3 : World) → SameButCqs w1 w2 → Same w2 w3 → SameButCqs w1 w3
SameButCqs-trans w1 w2 w3 (a, e) (c, d) = (
  c ∙ a,
  d
      ∙ ap (λ (v : World). record v { trace = w3.trace }) e
      ∙ ap (λ (q : Boxes CqInner). record w1 { trace = w3.trace; cqs = q })
          (sym (ap (λ (v : World). v.cqs) d)),
)

pub drop_cq_trace :
    (cq : ℕ) (w : World) (t : Trace)
    → held t ≡ held w.trace
    → Same (drop_cq cq w) (drop_cq cq (record w { trace = t }))
unfolding drop_cq drop_context drop_urma held
drop_cq_trace cq w t h = ground arith

-- The scope of a queue.
cq_scope :
    {B : Type 0} (body : ℕ → Io B) (r : Result ℕ) (w w1 : World)
    → ((e : Error) → r ≡ err e → Same w w1)
    → ((cq : ℕ) → r ≡ ok cq → SameButCqs w (drop_cq cq w1))
    → ((cq : ℕ) → r ≡ ok cq → Same w1 (body cq w1).1)
    → SameButCqs w (continue r (λ cq. dropping (drop_cq cq) (body cq)) w1).1
cq_scope body (ok cq) w w1 f s k =
    SameButCqs-trans w (drop_cq cq w1) (drop_cq cq (body cq w1).1) (s cq refl)
      (congr_of (drop_cq cq) (drop_cq_trace cq) w1 (body cq w1).1 (k cq refl))
cq_scope body (err e) w w1 f s k = SameButCqs-trans w w w1 (refl, refl) (f e refl)

module _ (p : Liburma) (ctx : Context) where
  pub cq_new_fails :
      (depth : ℕ) (w : World) (e : Error)
      → (Cq.new p ctx depth w).0 ≡ err e
      → Same w (Cq.new p ctx depth w).1
  unfolding Cq.new held
  cq_new_fails depth w e h = ground arith

  -- The queue that was made, and the context that it holds, are live.
  pub cq_new_live :
      (b : Rc ContextInner) (depth cq : ℕ) (w : World)
      → get_elem? w.contexts ctx.inner ≡ some b
      → (Cq.new p ctx depth w).0 ≡ ok cq
      → (get_elem? (Cq.new p ctx depth w).1.contexts ctx.inner
          ≡ some (record b { strong = suc b.strong }))
        × ((q : CqInner) × (get_elem? (Cq.new p ctx depth w).1.cqs cq
              ≡ some (record { strong = 1; value = q })))
  unfolding Cq.new new_cq clone_context
  cq_new_live b depth cq w at h =
      let raw = context_raw w ctx in
      let jfce' = p.urma_create_jfce w.trace raw in
      let cfg : UrmaJfcCfg = record {
        depth = depth;
        flag = record { value = 0 };
        ceqn = 0;
        jfce = jfce';
        user_ctx = 0;
      } in
      let jfc' = p.urma_create_jfc (Event.urma_create_jfce raw jfce' ∷ w.trace) raw cfg in
      let inner : CqInner = record { jfce = jfce'; jfc = jfc'; ctx = ctx } in
      (
        ground (arith, get_elem?-rc_clone w.contexts ctx.inner b at),
        (inner, ground (arith, get_elem?-append_last w.cqs (record { strong = 1; value = inner }))),
      )

  read_cq-SameButCqs :
      (b : Rc ContextInner) (w : World)
      → get_elem? w.contexts ctx.inner ≡ some b
      → 0 < b.strong
      → (a : ReadArgs) (wire : WireDesc) (mode : TransMode) (tp : TpType) (multi_path : Bool)
      → SameButCqs w (read_cq p a wire (mode, tp, multi_path) ctx w).1
  unfolding read_cq
  read_cq-SameButCqs b w at live a wire mode tp multi_path =
      let made = Cq.new p ctx default_depth w in
      cq_scope (read_jetty p a wire (mode, tp, multi_path) ctx) made.0 w made.1
        (cq_new_fails default_depth w) (λ cq e. drop_cq-new p w ctx b default_depth cq at live e)
        (λ cq e.
          let (c, (q, d)) = cq_new_live b default_depth cq w at e in
          read_jetty-Same p ctx (record b { strong = suc b.strong })
            (record { strong = 1; value = q }) made.1 cq c (omega arith) d (omega arith) a wire mode
            tp multi_path)

  -- With a live context, `read` from the guard against its own eid on leaves held what was held
  -- before, and everything else but the trace and the boxes of queues as it was, however it ends.
  pub read_peer-SameButCqs :
      (b : Rc ContextInner) (w : World)
      → get_elem? w.contexts ctx.inner ≡ some b
      → 0 < b.strong
      → (a : ReadArgs) (wire : WireDesc) (chosen : TransMode × TpType × Bool)
      → SameButCqs w (read_peer p a wire chosen ctx w).1
  unfolding read_peer
  read_peer-SameButCqs b w at live a wire (mode, tp, multi_path) =
      guarded (same_bytes wire.seg.eid.bytes ctx.eid.bytes)
    where
      guarded :
          (own : Bool)
          → SameButCqs w
              ((if own
                  then fail (invalid (text own_eid))
                  else read_cq p a wire (mode, tp, multi_path) ctx)
                w).1
      guarded true = (refl, refl)
      guarded false = read_cq-SameButCqs b w at live a wire mode tp multi_path
