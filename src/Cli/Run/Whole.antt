-- ===== src/Cli/Run/Whole.antt =====
-- A whole `read`, from the library to the completion, gives back what it took.
use urma_rs.Base.{
  ℕ, ◌<◌, ◌≡◌, refl, ◌∙◌, sym, subst, Bool, List, ◌∷◌, some, get_elem?, if◌then◌else◌, arith,
}
use urma_rs.Error.{Error, Result, ok, err}
use urma_rs.Ffi.Liburma.{Liburma, Trace, Event}
use urma_rs.Ffi.World.{World, Context, ContextInner, CqInner, Rc, Boxes}
use urma_rs.Ffi.Io.{Io, ◌>>=◌, continue, dropping}
use urma_rs.Urma.Modes.{TransMode, TpType}
use urma_rs.Urma.Init.{init, drop_urma}
use urma_rs.Urma.Context.{drop_context, clone_context, context_raw}
use urma_rs.Urma.Context
use urma_rs.Urma.Release.{held}
use urma_rs.Urma.Release.Create.{get_elem?-append_last}
use urma_rs.Urma.Release.Drop.{drop_context-create}
use urma_rs.Cli.Desc.{WireDesc, unpack_desc}
use urma_rs.Cli.Preflight.{preflight}
use urma_rs.Cli.Run.{ReadArgs, read_peer, read_urma, read_run, check_range, is_dash}
use urma_rs.Cli.Run.Start.{preflight-IsRestored, IsReady, held-init, init_live, held-drop_urma}
use urma_rs.Cli.Run.Queue.{SameButCqs, read_peer-SameButCqs}

held-drop_context :
    (c : Context) (w : World) (t : Trace) (q : Boxes CqInner)
    → held t ≡ held w.trace
    → held (drop_context c (record w { trace = t; cqs = q })).trace ≡ held (drop_context c w).trace
unfolding drop_context drop_urma held
held-drop_context c w t q h = ground arith

pub drop_context_frame :
    (c : Context) (w w' : World)
    → SameButCqs w w'
    → held (drop_context c w').trace ≡ held (drop_context c w).trace
unfolding drop_context drop_urma held
drop_context_frame c w w' (a, e) =
    subst (λ (v : World). held (drop_context c v).trace ≡ held (drop_context c w).trace) (sym e)
      (held-drop_context c w w'.trace w'.cqs a)

-- The scope of a context.
context_scope :
    {B : Type 0} (body : Context → Io B) (r : Result Context) (w w1 : World)
    → ((e : Error) → r ≡ err e → held w1.trace ≡ held w.trace)
    → ((c : Context) → r ≡ ok c → held (drop_context c w1).trace ≡ held w.trace)
    → ((c : Context) → r ≡ ok c → SameButCqs w1 (body c w1).1)
    → held (continue r (λ c. dropping (drop_context c) (body c)) w1).1.trace ≡ held w.trace
context_scope body (ok c) w w1 f s k = drop_context_frame c w1 (body c w1).1 (k c refl) ∙ s c refl
context_scope body (err e) w w1 f s k = f e refl

-- The scope of the guard on the library.
urma_scope :
    {B : Type 0} (body : ℕ → Io B) (r : Result ℕ) (w w1 : World)
    → held w1.trace ≡ held w.trace
    → ((u : ℕ) → r ≡ ok u → held (body u w1).1.trace ≡ held w1.trace)
    → held (continue r (λ u. dropping (drop_urma u) (body u)) w1).1.trace ≡ held w.trace
urma_scope body (ok u) w w1 f k = held-drop_urma u (body u w1).1 ∙ k u refl ∙ f
urma_scope body (err e) w w1 f k = f

then_held :
    {A B : Type 0} (r : Result A) (f : A → Io B) (w w1 : World)
    → held w1.trace ≡ held w.trace
    → ((x : A) → held (f x w1).1.trace ≡ held w1.trace)
    → held (continue r f w1).1.trace ≡ held w.trace
then_held (ok x) f w w1 h k = k x ∙ h
then_held (err e) f w w1 h k = h

module _ (p : Liburma) where
  pub context_create_fails :
      (urma : ℕ) (dev_name : List ℕ) (w : World) (e : Error)
      → (Context.create p urma dev_name w).0 ≡ err e
      → held (Context.create p urma dev_name w).1.trace ≡ held w.trace
  unfolding Context.create held
  context_create_fails urma dev_name w e h = ground arith

  -- The context that was made is live.
  pub context_create_live :
      (urma : ℕ) (dev_name : List ℕ) (w : World) (c : Context)
      → (Context.create p urma dev_name w).0 ≡ ok c
      → (b : Rc ContextInner) × (get_elem? (Context.create p urma dev_name w).1.contexts c.inner
          ≡ some b)
        × (0 < b.strong)
  unfolding Context.create
  context_create_live urma dev_name w c h =
      let dev = p.urma_get_device_by_name w.trace dev_name in
      let tr = Event.urma_get_device_by_name dev_name dev ∷ w.trace in
      let eids = p.urma_get_eid_list tr dev in
      let i = (eids.info 0).eid_index in
      let tr' = Event.urma_free_eid_list eids.list ∷ Event.urma_get_eid_list dev eids.list ∷ tr in
      let inner : ContextInner = record { raw = p.urma_create_context tr' dev i; urma = urma } in
      (
        record { strong = 1; value = inner },
        ground (arith, get_elem?-append_last w.contexts (record { strong = 1; value = inner })),
        omega arith,
      )

  -- `read_urma` leaves held what was held before, where the guard of the thread is live or missing.
  held-read_urma :
      (a : ReadArgs) (wire : WireDesc) (chosen : TransMode × TpType × Bool) (w : World)
      → IsReady w
      → held (read_urma p a wire chosen w).1.trace ≡ held w.trace
  unfolding read_urma
  held-read_urma a wire chosen w ready =
      let begun = init p w in
      urma_scope
        (λ urma. Context.create p urma a.mode.dev >>= λ ctx.
          dropping (drop_context ctx) (read_peer p a wire chosen ctx))
        begun.0 w begun.1 (held-init p w)
        (λ u e.
          let made = Context.create p u a.mode.dev begun.1 in
          let (g, at, live) = init_live p w u ready e in
          context_scope (read_peer p a wire chosen) made.0 begun.1 made.1
            (context_create_fails u a.mode.dev begun.1)
            (λ c k. (drop_context-create p begun.1 u g a.mode.dev c at live k).0)
            (λ c k.
              let (b, at', live') = context_create_live u a.mode.dev begun.1 c k in
              read_peer-SameButCqs p c b made.1 at' live' a wire chosen))

  -- Where the thread has no guard of the library yet or a live one, a whole read of urma_cli,
  -- whatever its arguments, its input and the answers of the library, leaves held what was held
  -- before, on success and on each of its failures.
  pub held-read_run :
      (a : ReadArgs) (stdin : Result (List ℕ)) (w : World)
      → IsReady w
      → held (read_run p a stdin w).1.trace ≡ held w.trace
  unfolding read_run
  held-read_run a stdin w ready =
      then_held (if is_dash a.desc then stdin else ok a.desc) _ w w refl (λ line.
        then_held (unpack_desc line) _ w w refl (λ wire.
          then_held (check_range a wire.seg) _ w w refl (λ u.
            let (again, same) = preflight-IsRestored p a.mode w ready in
            then_held (preflight p a.mode w).0 _ w (preflight p a.mode w).1 same
              (λ chosen. held-read_urma a wire chosen (preflight p a.mode w).1 again))))
