-- ===== src/Urma/Device.antt =====
-- src/urma.rs: `list_devices` and `query_device`.
use urma_rs.Base.{
  ℕ, zero, suc, pos, is_negative, to_ℕ, ◌==◌, ◌==ℤ◌, ◌||◌, not, List, [], ◌∷◌, Option, none, some,
  if◌then◌else◌,
}
use urma_rs.Error.{check_status}
use urma_rs.Ffi.Liburma.{Liburma, Event}
use urma_rs.Ffi.Io.{
  Io, ◌>>=◌, ◌>>◌, pure, emit, lift, dropping, urma_get_device_list, urma_query_device,
}
use urma_rs.Urma.Init.{init, drop_urma}
use urma_rs.Urma.Context.{device_by_name}
use urma_rs.Urma.Cap.{DeviceCap, from_raw}

-- The names of the entries that are not NULL, from index `i` on.
unfoldable pub names_from : ℕ → ℕ → (ℕ → Option (List ℕ)) → List (List ℕ)
names_from i zero name = []
names_from i (suc n) name = elim (name i) [
  | none ↦ names_from (suc i) n name
  | some dev ↦ dev ∷ names_from (suc i) n name
]

module _ (p : Liburma) where
  -- The guard `_urma` is dropped at the end, however that is reached.
  unfoldable pub list_devices : Io (List (List ℕ))
  unfolding init drop_urma names_from
  list_devices = do
    urma ← init p
    dropping (drop_urma urma) (do
      devices ← urma_get_device_list p
      if devices.list == 0 || is_negative devices.cnt || devices.cnt ==ℤ pos 0
          then (do
            if not (devices.list == 0)
                then emit (Event.urma_free_device_list devices.list)
                else pure tt
            pure [])
          else (do
            let names = names_from 0 (to_ℕ devices.cnt) devices.name
            emit (Event.urma_free_device_list devices.list)
            pure names))

  unfoldable pub query_device : List ℕ → Io DeviceCap
  unfolding init drop_urma device_by_name check_status from_raw
  query_device dev_name = do
    urma ← init p
    dropping (drop_urma urma) (do
      dev ← device_by_name p dev_name
      attr ← urma_query_device p dev
      lift (check_status attr.status "urma_query_device")
      pure (from_raw attr.dev_cap))
