-- ===== src/Urma/Init/Handles.antt =====
-- Handles on the library and on contexts: cached initialisation, clones and drops.
use urma_rs.Base.{ℕ, zero, suc, ◌-◌, ◌<◌, ◌≡◌, refl, [], ◌∷◌, some, none, get_elem?, arith}
use urma_rs.Error.{ok}
use urma_rs.Ffi.Liburma.{Liburma}
use urma_rs.Ffi.World.{World, Rc, Boxes, Context, ContextInner, rc_clone, rc_drop, rc_last}
use urma_rs.Urma.Init.{init, cache_init}
use urma_rs.Urma.Context.{drop_context, clone_context}

module _ {V : Type 0} where
  pub rc_drop-rc_clone : (boxes : Boxes V) (i : ℕ) → rc_drop (rc_clone boxes i) i ≡ boxes
  rc_drop-rc_clone [] i = refl
  rc_drop-rc_clone (b ∷ boxes) zero = let e : suc b.strong - 1 ≡ b.strong = omega arith in rw e
  rc_drop-rc_clone (b ∷ boxes) (suc i) = rw (rc_drop-rc_clone boxes i)

  pub rc_last-rc_clone :
      (boxes : Boxes V) (i : ℕ) (b : Rc V)
      → get_elem? boxes i ≡ some b
      → 0 < b.strong
      → rc_last (rc_clone boxes i) i ≡ none
  rc_last-rc_clone [] i b e h = cc
  rc_last-rc_clone (x ∷ boxes) zero b e h = ground arith
  rc_last-rc_clone (x ∷ boxes) (suc i) b e h = rc_last-rc_clone boxes i b e h

-- A clone of a live handle on a context that is dropped again leaves the world as it was; the
-- context is not deleted.
pub drop_context-clone_context :
    (c : Context) (b : Rc ContextInner) (w : World)
    → get_elem? w.contexts c.inner ≡ some b
    → 0 < b.strong
    → drop_context c (clone_context c w) ≡ w
unfolding drop_context clone_context
drop_context-clone_context c b w e h =
    ground (arith, rc_last-rc_clone w.contexts c.inner b e h, rc_drop-rc_clone w.contexts c.inner)

-- After a successful init, the next one on the thread answers the same guard and makes no call.
pub init-init :
    (p : Liburma) (i : ℕ) (w : World)
    → (init p w).0 ≡ ok i
    → let w' = (init p w).1 in ((init p w').0 ≡ ok i) × ((init p w').1.trace ≡ w'.trace)
unfolding init cache_init
init-init p i w e = ground arith
