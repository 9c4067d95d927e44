-- ===== src/Cli/Run/Start.antt =====
-- The guard on the library at the start of `read`, and what the preflight leaves behind.
use urma_rs.Base.{
  ℕ, suc, ◌<◌, ◌≡◌, refl, ◌-◌, ◌∙◌, sym, subst, List, ◌∷◌, [], length, some, get_elem?,
  Option-cases, inl, inr, arith, ◌++◌,
}
use urma_rs.Error.{Error, Result, ok, err, check_status}
use urma_rs.Ffi.Liburma.{Liburma, Trace}
use urma_rs.Ffi.World.{World, Rc, Boxes, rc_clone, rc_new, rc_drop}
use urma_rs.Ffi.Io.{
  Io, ◌>>=◌, ◌>>◌, continue, dropping, pure, lift, urma_query_device, non_null, null_err,
}
use urma_rs.Urma.Init.{init, drop_urma, cache_init}
use urma_rs.Urma.Init.Handles.{rc_drop-rc_clone}
use urma_rs.Urma.Device.{query_device}
use urma_rs.Urma.Context.{device_by_name}
use urma_rs.Urma.Cap.{from_raw}
use urma_rs.Urma.Release.{held}
use urma_rs.Urma.Release.Create.{get_elem?-append_last}
use urma_rs.Cli.Preflight.{ModeArgs, preflight, preflight_of}
use urma_rs.Urma.Release.Scope.{Same, get_elem?-rc_clone}

module _ {V : Type 0} where
  rc_drop-append_last :
      (boxes : Boxes V) (b : Rc V)
      → rc_drop (boxes ++ (b ∷ [])) (length boxes)
        ≡ boxes ++ (record b { strong = b.strong - 1 } ∷ [])
  rc_drop-append_last [] b = refl
  rc_drop-append_last (x ∷ boxes) b = rw (rc_drop-append_last boxes b)

  rc_clone-append_last :
      (boxes : Boxes V) (b : Rc V)
      → rc_clone (boxes ++ (b ∷ [])) (length boxes)
        ≡ boxes ++ (record b { strong = suc b.strong } ∷ [])
  rc_clone-append_last [] b = refl
  rc_clone-append_last (x ∷ boxes) b = rw (rc_clone-append_last boxes b)

-- The guard in the slot of the thread is live.
abbrev pub IsReady : World → Type 0
IsReady w =
    (i : ℕ)
    → w.slot ≡ some i
    → (b : Rc (Unit {0})) × (get_elem? w.urmas i ≡ some b) × (0 < b.strong)

pub held-drop_urma : (u : ℕ) (w : World) → held (drop_urma u w).trace ≡ held w.trace
unfolding drop_urma held
held-drop_urma u w = ground arith

module _ (p : Liburma) where
  pub held-init : (w : World) → held (init p w).1.trace ≡ held w.trace
  unfolding init held
  held-init w = ground arith

  pub init_live :
      (w : World) (u : ℕ)
      → IsReady w
      → (init p w).0 ≡ ok u
      → (b : Rc (Unit {0})) × (get_elem? (init p w).1.urmas u ≡ some b) × (0 < b.strong)
  unfolding init cache_init check_status
  init_live w u ready h = elim (Option-cases w.slot) [
    | inl e ↦ (
      record { strong = 2; value = tt },
      ground (
        arith,
        get_elem?-rc_clone (rc_new w.urmas tt) (length w.urmas) (record { strong = 1; value = tt })
            (get_elem?-append_last w.urmas (record { strong = 1; value = tt })),
      ),
      omega arith,
    )
    | inr (i, e) ↦
        let (b, at, live) = ready i e in
        (
          record b { strong = suc b.strong },
          ground (arith, get_elem?-rc_clone w.urmas i b at),
          omega arith,
        )
  ]

  init_fails : (w : World) (e : Error) → (init p w).0 ≡ err e → IsReady (init p w).1
  unfolding init cache_init check_status
  init_fails w e h i k = elim (Option-cases w.slot) [
    | inl n ↦ ground arith
    | inr (j, n) ↦ ground arith
  ]

  -- A guard that is taken and dropped leaves the slot ready.
  init_drop :
      (w : World) (u : ℕ) (t : Trace)
      → IsReady w
      → (init p w).0 ≡ ok u
      → IsReady (drop_urma u (record (init p w).1 { trace = t }))
  unfolding init cache_init check_status drop_urma
  init_drop w u t ready h i k = elim (Option-cases w.slot) [
    | inl e ↦
        let one : Rc (Unit {0}) = record { strong = 1; value = tt } in
        let two : Rc (Unit {0}) = record { strong = 2; value = tt } in
        (
          one,
          ground (
            arith,
            rc_clone-append_last w.urmas one,
            rc_drop-append_last w.urmas two,
            get_elem?-append_last w.urmas one,
          ),
          omega arith,
        )
    | inr (j, e) ↦
        let (b, at, live) = ready j e in (b, ground (arith, rc_drop-rc_clone w.urmas j), live)
  ]

  -- Ready again, with what was held before.
  abbrev pub IsRestored : World → World → Type 0
  IsRestored w w' = IsReady w' × (held w'.trace ≡ held w.trace)

  guard_scope :
      {B : Type 0} (body : Io B) (r : Result ℕ) (w w1 : World)
      → held w1.trace ≡ held w.trace
      → ((e : Error) → r ≡ err e → IsReady w1)
      → ((u : ℕ) → r ≡ ok u → (t : Trace) → IsReady (drop_urma u (record w1 { trace = t })))
      → ((v : World) → Same v (body v).1)
      → IsRestored w (continue r (λ u. dropping (drop_urma u) body) w1).1
  guard_scope body (ok u) w w1 h f k s =
      let (a, e) = s w1 in
      (
        subst (λ (v : World). IsReady (drop_urma u v)) (sym e) (k u refl (body w1).1.trace),
        held-drop_urma u (body w1).1 ∙ a ∙ h,
      )
  guard_scope body (err e) w w1 h f k s = (f e refl, h)

  -- The part of `query_device` under the guard.
  query_device_body :
      (dev_name : List ℕ) (v : World)
      → Same v
          ((do
            dev ← device_by_name p dev_name
            attr ← urma_query_device p dev
            lift (check_status attr.status "urma_query_device")
            pure (from_raw attr.dev_cap))
            v).1
  unfolding device_by_name check_status held non_null null_err
  query_device_body dev_name v = ground arith

  pub query_device-IsRestored :
      (dev_name : List ℕ) (w : World) → IsReady w → IsRestored w (query_device p dev_name w).1
  unfolding query_device
  query_device-IsRestored dev_name w ready =
      guard_scope _ (init p w).0 w (init p w).1 (held-init w) (init_fails w)
        (λ u e t. init_drop w u t ready e) (query_device_body dev_name)

  then_lift :
      {A B : Type 0} (r : Result A) (f : A → Result B) (w w1 : World)
      → IsRestored w w1
      → IsRestored w (continue r (λ a. lift (f a)) w1).1
  then_lift (ok a) f w w1 h = h
  then_lift (err e) f w w1 h = h

  pub preflight-IsRestored :
      (m : ModeArgs) (w : World) → IsReady w → IsRestored w (preflight p m w).1
  unfolding preflight
  preflight-IsRestored m w ready =
      then_lift (query_device p m.dev w).0 (preflight_of m) w (query_device p m.dev w).1
        (query_device-IsRestored m.dev w ready)
