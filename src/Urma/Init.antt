-- ===== src/Urma/Init.antt =====
-- src/urma.rs: `UrmaInner`, `Urma::init`, and the handles on it. A guard is the index of its box.
pub mod Handles
use urma_rs.Base.{ℕ, none, some, length}
use urma_rs.Error.{check_status}
use urma_rs.Ffi.Liburma.{Liburma, Event}
use urma_rs.Ffi.World.{World, rc_new, rc_clone, rc_drop, rc_last, log}
use urma_rs.Ffi.Io.{Io, ◌>>=◌, ◌>>◌, lift, urma_init}
use urma_rs.Error.{ok}

-- Drop of an `Rc<UrmaInner>`: the last one runs `urma_uninit`.
unfoldable pub drop_urma : ℕ → World → World
drop_urma i w =
    let w' : World = record w { urmas = rc_drop w.urmas i } in
    elim (rc_last w.urmas i) [ none ↦ w' | some _ ↦ log w' Event.urma_uninit ]

-- `Rc::new(UrmaInner)`, and the clone of it that the slot keeps.
unfoldable pub cache_init : Io ℕ
cache_init w =
    let i = length w.urmas in
    (ok i, record w { slot = some i; urmas = rc_clone (rc_new w.urmas tt) i })

module _ (p : Liburma) where
  unfoldable pub init : Io ℕ
  unfolding cache_init
  init w = elim w.slot [
    | some inner ↦ (ok inner, record w { urmas = rc_clone w.urmas inner })
    | none ↦
        (do
          st ← urma_init p (record { token = 0; uasid = 0 })
          lift (check_status st "urma_init")
          cache_init)
          w
  ]

-- The end of the thread drops the slot.
unfoldable pub thread_exit : World → World
unfolding drop_urma
thread_exit w = elim w.slot [ none ↦ w | some i ↦ drop_urma i (record w { slot = none }) ]
