-- ===== src/Ffi/World.antt =====
-- The state that a computation of the safe layer changes: the calls made to liburma.so, and the
-- boxes behind the `Rc`s of src/urma.rs. A box is known by its index; one whose count is 0 is gone.
use urma_rs.Base.{
  ℕ, zero, suc, ◌-◌, ◌==◌, true, false, List, [], ◌∷◌, ◌++◌, Option, none, some, get_elem?,
}
use urma_rs.Urma.Values.{Eid}
use urma_rs.Ffi.Liburma.{Trace, Event}

-- `Context`: a handle on a box, and the eid.
pub record Context : Type 0 where
  pub inner : ℕ
  pub eid : Eid

pub record ContextInner : Type 0 where
  pub raw : ℕ
  pub urma : ℕ

pub record CqInner : Type 0 where
  pub jfce : ℕ
  pub jfc : ℕ
  pub ctx : Context

-- `RcBox<T>` of std: the strong count and the value.
pub record Rc (V : Type 0) : Type 0 where
  pub strong : ℕ
  pub value : V

abbrev pub Boxes : Type 0 → Type 0
Boxes V = List (Rc V)

pub record World : Type 0 where
  pub trace : Trace
  -- The thread-local `INIT`.
  pub slot : Option ℕ
  pub urmas : Boxes (Unit {0})
  pub contexts : Boxes ContextInner
  pub cqs : Boxes CqInner

module _ {V : Type 0} where
  abbrev pub rc_new : Boxes V → V → Boxes V
  rc_new boxes v = boxes ++ (record { strong = 1; value = v } ∷ [])

  -- `Rc::clone`.
  abbrev pub rc_clone : Boxes V → ℕ → Boxes V
  rc_clone [] i = []
  rc_clone (b ∷ boxes) zero = record b { strong = suc b.strong } ∷ boxes
  rc_clone (b ∷ boxes) (suc i) = b ∷ rc_clone boxes i

  -- The count after a handle is dropped.
  abbrev pub rc_drop : Boxes V → ℕ → Boxes V
  rc_drop [] i = []
  rc_drop (b ∷ boxes) zero = record b { strong = b.strong - 1 } ∷ boxes
  rc_drop (b ∷ boxes) (suc i) = b ∷ rc_drop boxes i

  -- The value, where the handle at hand is the last.
  abbrev pub rc_last : Boxes V → ℕ → Option V
  rc_last boxes i = elim (get_elem? boxes i) [
    | none ↦ none
    | some b ↦ elim (b.strong == 1) [ true ↦ some b.value | false ↦ none ]
  ]

  abbrev pub rc_value : Boxes V → ℕ → Option V
  rc_value boxes i = elim (get_elem? boxes i) [ none ↦ none | some b ↦ some b.value ]

abbrev pub log : World → Event → World
log w e = record w { trace = e ∷ w.trace }
