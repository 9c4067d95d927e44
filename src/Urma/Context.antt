-- ===== src/Urma/Context.antt =====
-- src/urma.rs: `device_by_name`, `Context` and the drop of its box.
use urma_rs.Base.{
  ℕ, ◌==◌, ◌||◌, Bool, true, false, not, List, [], ◌∷◌, none, some, length, if◌then◌else◌,
}
use urma_rs.Error.{ok, err, not_found, invalid, text, device_not_found, no_eid_on_device}
use urma_rs.Ffi.Liburma.{Liburma, Event}
use urma_rs.Ffi.World.{World, Context, rc_new, rc_clone, rc_drop, rc_last, rc_value, log}
use urma_rs.Ffi.Io.{
  Io, ◌>>=◌, ◌>>◌, pure, fail, emit, non_null, urma_get_device_by_name, urma_get_eid_list,
  urma_create_context,
}
use urma_rs.Urma.Values.{eid_from_raw}
use urma_rs.Urma.Init.{drop_urma}

-- Drop of a `Context`: the last handle deletes the C object and then drops its hold on the library.
unfoldable pub drop_context : Context → World → World
drop_context c w =
    let w' : World = record w { contexts = rc_drop w.contexts c.inner } in
    elim (rc_last w.contexts c.inner) [
      | none ↦ w'
      | some inner ↦ drop_urma inner.urma (log w' (Event.urma_delete_context inner.raw))
    ]

-- `Context::clone`.
unfoldable pub clone_context : Context → World → World
clone_context c w = record w { contexts = rc_clone w.contexts c.inner }

-- `Context::raw`: the pointer in the box. A handle that is held never dangles; 0 stands for one
-- that does.
abbrev pub context_raw : World → Context → ℕ
context_raw w c = elim (rc_value w.contexts c.inner) [ none ↦ 0 | some inner ↦ inner.raw ]

unfoldable pub raw_of : Context → Io ℕ
raw_of c w = (ok (context_raw w c), w)

-- `CString::new` refuses a byte 0 inside.
unfoldable pub contains_nul : List ℕ → Bool
contains_nul [] = false
contains_nul (b ∷ bs) = b == 0 || contains_nul bs

-- `Rc::new(ContextInner { raw, _urma: Rc::clone(&urma.inner) })`.
unfoldable pub new_context : ℕ → ℕ → Io ℕ
new_context raw urma w = (
  ok (length w.contexts),
  record w {
    urmas = rc_clone w.urmas urma;
    contexts = rc_new w.contexts (record { raw = raw; urma = urma });
  },
)

module _ (p : Liburma) where
  unfoldable pub device_by_name : List ℕ → Io ℕ
  unfolding contains_nul
  device_by_name dev_name w = elim (contains_nul dev_name) [
    | true ↦ (err (invalid (text "device name contains NUL")), w)
    | false ↦
        (do
          dev ← urma_get_device_by_name p dev_name
          if dev == 0 then fail (not_found (device_not_found dev_name)) else pure dev)
          w
  ]

  unfoldable pub create : ℕ → List ℕ → Io Context
  unfolding device_by_name non_null new_context eid_from_raw
  create urma dev_name = do
    dev ← device_by_name dev_name
    eids ← urma_get_eid_list p dev
    if eids.list == 0 || eids.cnt == 0
        then (do
          if not (eids.list == 0) then emit (Event.urma_free_eid_list eids.list) else pure tt
          fail (not_found (no_eid_on_device dev_name)))
        else (do
          let info = eids.info 0
          emit (Event.urma_free_eid_list eids.list)
          raw ← urma_create_context p dev info.eid_index
          raw' ← non_null p raw "urma_create_context"
          inner ← new_context raw' urma
          pure (record { inner = inner; eid = eid_from_raw info.eid }))
