-- ===== src/Urma/Release/Scope.antt =====
-- What a scope gives back at its end, on success and on failure.
use urma_rs.Base.{
  ℕ, zero, suc, ◌<◌, ◌≡◌, refl, ap, ◌∙◌, sym, subst, List, ◌∷◌, [], some, get_elem?, arith,
}
use urma_rs.Error.{Error, Result, ok, err}
use urma_rs.Ffi.Liburma.{Liburma, Trace, Event}
use urma_rs.Ffi.World.{World, Context, ContextInner, Rc, Boxes, rc_clone, log}
use urma_rs.Ffi.Io.{Io, continue, dropping}
use urma_rs.Urma.Modes.{TpType}
use urma_rs.Urma.Init.{drop_urma}
use urma_rs.Urma.Context.{drop_context, clone_context}
use urma_rs.Urma.Cq.{wait_loop, poll, poll_interval}
use urma_rs.Urma.Seg.{RegisteredSeg, LocalSge, drop_seg, new_registered_buf}
use urma_rs.Urma.Jetty.{Jetty}
use urma_rs.Urma.Peer.{Peer, drop_peer, import_pair, import_ctx}
use urma_rs.Urma.Post.{post_read}
use urma_rs.Urma.Release.{held}
use urma_rs.Urma.Init.Handles.{rc_drop-rc_clone, rc_last-rc_clone}

-- The same is held, and all but the trace is the same.
abbrev pub Same : World → World → Type 0
Same w w' = (held w'.trace ≡ held w.trace) × (w' ≡ record w { trace = w'.trace })

pub Same-trans : (w1 w2 w3 : World) → Same w1 w2 → Same w2 w3 → Same w1 w3
Same-trans w1 w2 w3 (a, b) (c, d) = (c ∙ a, d ∙ ap (λ (v : World). record v { trace = w3.trace }) b)

-- A value is made, used, and dropped at the end of its scope.
module _ {A B : Type 0} (drop : A → World → World) (body : A → Io B)
    (congr : (x : A) (w1 w2 : World) → Same w1 w2 → Same (drop x w1) (drop x w2)) where
  pub scope-Same :
      (r : Result A) (w w1 : World)
      → ((e : Error) → r ≡ err e → Same w w1)
      → ((x : A) → r ≡ ok x → Same w (drop x w1))
      → ((x : A) → r ≡ ok x → Same w1 (body x w1).1)
      → Same w (continue r (λ x. dropping (drop x) (body x)) w1).1
  scope-Same (ok x) w w1 f s b =
      Same-trans w (drop x w1) (drop x (body x w1).1) (s x refl)
        (congr x w1 (body x w1).1 (b x refl))
  scope-Same (err e) w w1 f s b = f e refl

pub then-Same :
    {A B : Type 0} (r : Result A) (f : A → Io B) (w w1 : World)
    → Same w w1
    → ((x : A) → Same w1 (f x w1).1)
    → Same w (continue r f w1).1
then-Same (ok x) f w w1 h k = Same-trans w w1 (f x w1).1 h (k x)
then-Same (err e) f w w1 h k = h

pub drop_peer-trace :
    (q : Peer) (w : World) (t : Trace)
    → held t ≡ held w.trace
    → Same (drop_peer q w) (drop_peer q (record w { trace = t }))
unfolding drop_peer drop_context drop_urma held
drop_peer-trace q w t h = ground arith

pub drop_seg-trace :
    (s : RegisteredSeg) (w : World) (t : Trace)
    → held t ≡ held w.trace
    → Same (drop_seg s w) (drop_seg s (record w { trace = t }))
unfolding drop_seg drop_context drop_urma held
drop_seg-trace s w t h = ground arith

pub import_ctx-fails :
    (p : Liburma) (ctx : Context) (s rj : List ℕ) (tp : TpType) (token : ℕ) (w : World) (e : Error)
    → (import_ctx p ctx s rj tp token w).0 ≡ err e
    → Same w (import_ctx p ctx s rj tp token w).1
unfolding import_ctx held
import_ctx-fails p ctx s rj tp token w e h = ground arith

pub new_registered_buf-fails :
    (p : Liburma) (ctx : Context) (len token : ℕ) (w : World) (e : Error)
    → (new_registered_buf p ctx len token w).0 ≡ err e
    → Same w (new_registered_buf p ctx len token w).1
unfolding new_registered_buf held
new_registered_buf-fails p ctx len token w e h = ground arith

pub post_read-Same :
    (p : Liburma) (j : Jetty) (q : Peer) (va : ℕ) (sges : List LocalSge) (user_ctx : ℕ) (w : World)
    → Same w (post_read p j q va sges user_ctx w).1
unfolding post_read held
post_read-Same p j q va sges user_ctx w = ground arith

pub wait_loop-Same :
    (p : Liburma) (rounds cq expected : ℕ) (w : World) → Same w (wait_loop p rounds cq expected w).1
unfolding wait_loop poll held
wait_loop-Same p zero cq expected w = (refl, refl)
wait_loop-Same p (suc rounds) cq expected w =
    let w1 = (poll p cq w).1 in
    ground (arith, wait_loop-Same p rounds cq expected (log w1 (Event.sleep poll_interval)))

pub congr_of :
    (drop : World → World)
    → ((w : World) (t : Trace)
        → held t ≡ held w.trace
        → Same (drop w) (drop (record w { trace = t })))
    → (w1 w2 : World) → Same w1 w2
    → Same (drop w1) (drop w2)
congr_of drop h w1 w2 (a, b) =
    subst (λ (v : World). Same (drop w1) (drop v)) (sym b) (h w1 w2.trace a)

pub get_elem?-rc_clone :
    {V : Type 0} (boxes : Boxes V) (i : ℕ) (b : Rc V)
    → get_elem? boxes i ≡ some b
    → get_elem? (rc_clone boxes i) i ≡ some (record b { strong = suc b.strong })
get_elem?-rc_clone [] i b e = cc
get_elem?-rc_clone (x ∷ boxes) zero b e = ground arith
get_elem?-rc_clone (x ∷ boxes) (suc i) b e = get_elem?-rc_clone boxes i b e

module _ (p : Liburma) (ctx : Context) (b : Rc ContextInner) (w : World)
    (at : get_elem? w.contexts ctx.inner ≡ some b) (live : 0 < b.strong) where
  pub drop_peer-import_ctx :
      (s rj : List ℕ) (tp : TpType) (token : ℕ) (q : Peer)
      → (import_ctx p ctx s rj tp token w).0 ≡ ok q
      → Same w (drop_peer q (import_ctx p ctx s rj tp token w).1)
        × (get_elem? (import_ctx p ctx s rj tp token w).1.contexts ctx.inner
            ≡ some (record b { strong = suc b.strong }))
  unfolding import_ctx import_pair drop_peer drop_context held clone_context
  drop_peer-import_ctx s rj tp token q made = ground (
    arith,
    rc_last-rc_clone w.contexts ctx.inner b at live,
    rc_drop-rc_clone w.contexts ctx.inner,
    get_elem?-rc_clone w.contexts ctx.inner b at,
  )
