-- ===== src/Common/Res/Scope.antt =====
-- What the scope of a local gives back when a later step fails, and the exports of the blobs.
use urma_rs.Base.{ℕ, ◌≡◌, refl, false, ◌==ℤ◌, inl, inr, arith}
use urma_rs.Error.{Error, Result, ok, err}
use urma_rs.Ffi.Consts.{urma_success}
use urma_rs.Ffi.Liburma.{Liburma, Trace}
use urma_rs.Ffi.World.{World}
use urma_rs.Ffi.Io.{Io, continue}
use urma_rs.Urma.Jetty.{Jetty, export_rjetty}
use urma_rs.Urma.Seg.{RegisteredSeg, export_seg_ctx}
use urma_rs.Urma.Release.{held}
use urma_rs.Urma.Release.Scope.{Same}
use urma_rs.Common.Scope.{Result-cases}
use urma_rs.Common.Res.{or_drop}

abbrev pub Held : World → World → Type 0
Held w w' = held w'.trace ≡ held w.trace

-- A failure within the scope of a local that is dropped then.
pub or_drop-fails :
    {A B : Type 0} (R Q : World → World → Type 0) (drop : A → World → World) (body : A → Io B)
    (r : Result A) (w w1 : World)
    → ((e : Error) → r ≡ err e → R w w1)
    → ((x : A) (v : World) → r ≡ ok x → Q w1 v → R w (drop x v))
    → ((x : A) (e : Error) → r ≡ ok x → (body x w1).0 ≡ err e → Q w1 (body x w1).1)
    → (e : Error) → (continue r (λ x. or_drop (drop x) (body x)) w1).0 ≡ err e
    → R w (continue r (λ x. or_drop (drop x) (body x)) w1).1
or_drop-fails R Q drop body (err e') w w1 f g h e k = f e' refl
or_drop-fails R Q drop body (ok x) w w1 f g h e k = elim (Result-cases (body x w1).0) [
  | inl (b, j) ↦ absurd (ground (arith, j))
  | inr (e', j) ↦ rw (j, or_drop) (g x (body x w1).1 refl (h x e' refl j))
]

-- The library hands out no buffer with an error status.
pub record IsTidy (p : Liburma) : Type 0 where
  pub seg_ctx :
      (tr : Trace) (t : ℕ)
      → ((p.urma_get_seg_ctx tr t).status ==ℤ urma_success) ≡ false
      → (p.urma_get_seg_ctx tr t).raw ≡ 0
  pub rjetty :
      (tr : Trace) (j : ℕ)
      → ((p.urma_get_rjetty tr j).status ==ℤ urma_success) ≡ false
      → (p.urma_get_rjetty tr j).raw ≡ 0

module _ (p : Liburma) (tidy : IsTidy p) where
  pub export_seg_ctx-Same : (s : RegisteredSeg) (w : World) → Same w (export_seg_ctx p s w).1
  unfolding export_seg_ctx held
  export_seg_ctx-Same s w = ground (arith, tidy.seg_ctx w.trace s.tseg)

  pub export_rjetty-Same : (j : Jetty) (w : World) → Same w (export_rjetty p j w).1
  unfolding export_rjetty held
  export_rjetty-Same j w = ground (arith, tidy.rjetty w.trace j.raw)
