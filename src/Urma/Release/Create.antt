-- ===== src/Urma/Release/Create.antt =====
-- What the constructors of the resources leave held.
use urma_rs.Base.{
  ℕ, ◌≤◌, ◌<◌, ◌≡◌, ◌≢◌, refl, List, [], ◌∷◌, ◌++◌, some, none, length, get_elem?, arith,
}
use urma_rs.Error.{Result, ok, err, invalid, priority_out_of_range}
use urma_rs.Ffi.Liburma.{Liburma, Event}
use urma_rs.Ffi.Structs.{UrmaJfcCfg}
use urma_rs.Ffi.World.{World, Context, CqInner, rc_value}
use urma_rs.Urma.Context.{context_raw}
use urma_rs.Urma.Cq.{cq_jfc}
use urma_rs.Urma.Cq
use urma_rs.Urma.Jetty.{JettyOpts, Jetty, jfr_cfg}
use urma_rs.Urma.Jetty
use urma_rs.Urma.Release.{Kind, Held, held, jfce, jfc, jfr, jetty}

-- A result and the world after it: an error leaves held what was held before, and a success in
-- addition what its value stands for.
abbrev pub Gains {ℓ} :
    {A : Type ℓ} → (World → A → List Held) → List Held → Result A → World → Type 0
Gains more before (ok a) w = held w.trace ≡ more w a ++ before
Gains more before (err e) w = held w.trace ≡ before

abbrev pub one : Kind → ℕ → Held
one k r = record { kind = k; ptr = r }

abbrev pub cq_held : World → ℕ → List Held
cq_held w i = elim (rc_value w.cqs i) [
  | none ↦ []
  | some inner ↦ one jfc inner.jfc ∷ one jfce inner.jfce ∷ []
]

abbrev pub jetty_held : World → Jetty → List Held
jetty_held w j = one jetty j.raw ∷ one jfr j.jfr ∷ []

pub get_elem?-append_last {ℓ} :
    {A : Type ℓ} (xs : List A) (x : A) → get_elem? (xs ++ (x ∷ [])) (length xs) ≡ some x
get_elem?-append_last [] x = refl
get_elem?-append_last (y ∷ xs) x = get_elem?-append_last xs x

module _ (p : Liburma) where
  -- For any answers, CompletionQueue::new leaves held the jfce and the jfc of the queue on success,
  -- and nothing new on failure.
  pub cq-new-Gains :
      (ctx : Context) (depth : ℕ) (w : World)
      → let r = Cq.new p ctx depth w in Gains cq_held (held w.trace) r.0 r.1
  unfolding Cq.new held
  cq-new-Gains ctx depth w =
      let raw = context_raw w ctx in
      let jfce' = p.urma_create_jfce w.trace raw in
      let cfg : UrmaJfcCfg = record {
        depth = depth;
        flag = record { value = 0 };
        ceqn = 0;
        jfce = jfce';
        user_ctx = 0;
      } in
      let jfc' = p.urma_create_jfc (Event.urma_create_jfce raw jfce' ∷ w.trace) raw cfg in
      let inner : CqInner = record { jfce = jfce'; jfc = jfc'; ctx = ctx } in
      ground (arith, get_elem?-append_last w.cqs (record { strong = 1; value = inner }))

  -- For a priority up to 15 and any answers of the library, Jetty::new leaves held the jfr and the
  -- jetty on success, and nothing new on failure.
  pub jetty-new-Gains :
      (ctx : Context) (cq : ℕ) (opts : JettyOpts) (w : World)
      → opts.priority ≤ 15
      → let r = Jetty.new p ctx cq opts w in Gains jetty_held (held w.trace) r.0 r.1
  unfolding Jetty.new held
  jetty-new-Gains ctx cq opts w h = ground arith

  -- For a priority above 15, when the jfr is created, Jetty::new fails with the error of the range
  -- test and leaves that jfr held.
  pub jetty-new-leak :
      (ctx : Context) (cq : ℕ) (opts : JettyOpts) (w : World)
      → 15 < opts.priority
      → let jfr' = p.urma_create_jfr w.trace (context_raw w ctx) (jfr_cfg opts (cq_jfc w cq)) in
        let r = Jetty.new p ctx cq opts w in
        jfr' ≢ 0
        → (r.0 ≡ err (invalid (priority_out_of_range opts.priority 15)))
          × (held r.1.trace ≡ one jfr jfr' ∷ held w.trace)
  unfolding Jetty.new held
  jetty-new-leak ctx cq opts w h made = ground arith
