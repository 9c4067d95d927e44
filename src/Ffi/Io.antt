-- ===== src/Ffi/Io.antt =====
-- A fallible computation of the safe layer: it runs on the world, and what it changed stays changed
-- when it fails. Each primitive makes one call of liburma.so and logs it.
use urma_rs.Base.{ℕ, ℤ, ◌==◌, String, List, if◌then◌else◌}
use urma_rs.Error.{Error, Result, ok, err, null}
use urma_rs.Ffi.Flags.ImportSegFlag.{UrmaImportSegFlag}
use urma_rs.Ffi.Structs.{UrmaInitAttr, UrmaToken, UrmaJfcCfg, UrmaJfrCfg, UrmaJettyCfg, UrmaSegCfg}
use urma_rs.Ffi.Requests.{WrMemory}
use urma_rs.Ffi.Liburma.{
  Liburma, Event, SegArg, RjettyArg, DeviceList, EidList, Blob, Polled, Queried,
}
use urma_rs.Ffi.World.{World, log}

abbrev pub Io {ℓ} : Type ℓ → Type ℓ
Io A = World → Result A × World

module _ {ℓ} {A : Type ℓ} where
  abbrev pub pure : A → Io A
  pure a w = (ok a, w)

  abbrev pub fail : Error → Io A
  fail e w = (err e, w)

  abbrev pub lift : Result A → Io A
  lift r w = (r, w)

module _ {ℓ κ} {A : Type ℓ} {B : Type κ} where
  abbrev pub continue : Result A → (A → Io B) → Io B
  continue (ok a) f w = f a w
  continue (err e) f w = (err e, w)

  infixl 5 ◌>>=◌
  abbrev pub ◌>>=◌ : Io A → (A → Io B) → Io B
  ◌>>=◌ m f w = continue (m w).0 f (m w).1

infixl 5 ◌>>◌
abbrev pub ◌>>◌ {ℓ} : {B : Type ℓ} → Io (Unit {0}) → Io B → Io B
m >> k = m >>= λ _. k

abbrev pub emit : Event → Io (Unit {0})
emit e w = (ok tt, log w e)

abbrev pub modify : (World → World) → Io (Unit {0})
modify f w = (ok tt, f w)

-- The body, and then what its scope drops, on success and on failure alike.
abbrev pub dropping {ℓ} : {A : Type ℓ} → (World → World) → Io A → Io A
dropping f m w = ((m w).0, f (m w).1)

module _ (p : Liburma) where
  -- `null_err`: errno as it stands at this point.
  unfoldable pub null_err {ℓ} : {A : Type ℓ} → String → Io A
  null_err what w = (err (null what (p.errno w.trace)), w)

  -- `NonNull::new(raw).ok_or_else(|| null_err(what))?`.
  unfoldable pub non_null : ℕ → String → Io ℕ
  unfolding null_err
  non_null raw what = if raw == 0 then null_err what else pure raw

  abbrev pub urma_init : UrmaInitAttr → Io ℤ
  urma_init attr w = let r = p.urma_init w.trace attr in (ok r, log w (Event.urma_init attr r))

  abbrev pub urma_get_device_list : Io DeviceList
  urma_get_device_list w =
      let r = p.urma_get_device_list w.trace in (ok r, log w (Event.urma_get_device_list r.list))

  abbrev pub urma_get_device_by_name : List ℕ → Io ℕ
  urma_get_device_by_name dev_name w =
      let r = p.urma_get_device_by_name w.trace dev_name in
      (ok r, log w (Event.urma_get_device_by_name dev_name r))

  abbrev pub urma_query_device : ℕ → Io Queried
  urma_query_device dev w =
      let r = p.urma_query_device w.trace dev in
      (ok r, log w (Event.urma_query_device dev r.status))

  abbrev pub urma_get_eid_list : ℕ → Io EidList
  urma_get_eid_list dev w =
      let r = p.urma_get_eid_list w.trace dev in (ok r, log w (Event.urma_get_eid_list dev r.list))

  abbrev pub urma_create_context : ℕ → ℕ → Io ℕ
  urma_create_context dev eid_index w =
      let r = p.urma_create_context w.trace dev eid_index in
      (ok r, log w (Event.urma_create_context dev eid_index r))

  abbrev pub urma_create_jfce : ℕ → Io ℕ
  urma_create_jfce ctx w =
      let r = p.urma_create_jfce w.trace ctx in (ok r, log w (Event.urma_create_jfce ctx r))

  abbrev pub urma_create_jfc : ℕ → UrmaJfcCfg → Io ℕ
  urma_create_jfc ctx cfg w =
      let r = p.urma_create_jfc w.trace ctx cfg in (ok r, log w (Event.urma_create_jfc ctx cfg r))

  abbrev pub urma_poll_jfc : ℕ → ℕ → Io Polled
  urma_poll_jfc jfc cr_cnt w =
      let r = p.urma_poll_jfc w.trace jfc cr_cnt in
      (ok r, log w (Event.urma_poll_jfc jfc cr_cnt r.n))

  abbrev pub urma_create_jfr : ℕ → UrmaJfrCfg → Io ℕ
  urma_create_jfr ctx cfg w =
      let r = p.urma_create_jfr w.trace ctx cfg in (ok r, log w (Event.urma_create_jfr ctx cfg r))

  abbrev pub urma_post_jfr_wr : ℕ → WrMemory → Io ℤ
  urma_post_jfr_wr jfr wr w =
      let r = p.urma_post_jfr_wr w.trace jfr wr in (ok r, log w (Event.urma_post_jfr_wr jfr wr r))

  abbrev pub urma_create_jetty : ℕ → UrmaJettyCfg → Io ℕ
  urma_create_jetty ctx cfg w =
      let r = p.urma_create_jetty w.trace ctx cfg in
      (ok r, log w (Event.urma_create_jetty ctx cfg r))

  abbrev pub urma_import_jetty : ℕ → RjettyArg → UrmaToken → Io ℕ
  urma_import_jetty ctx rjetty token w =
      let r = p.urma_import_jetty w.trace ctx rjetty token in
      (ok r, log w (Event.urma_import_jetty ctx rjetty token r))

  abbrev pub urma_register_seg : ℕ → UrmaSegCfg → Io ℕ
  urma_register_seg ctx cfg w =
      let r = p.urma_register_seg w.trace ctx cfg in
      (ok r, log w (Event.urma_register_seg ctx cfg r))

  abbrev pub urma_import_seg : ℕ → SegArg → UrmaToken → UrmaImportSegFlag → Io ℕ
  urma_import_seg ctx seg token flag w =
      let r = p.urma_import_seg w.trace ctx seg token flag in
      (ok r, log w (Event.urma_import_seg ctx seg token flag r))

  abbrev pub urma_get_seg_ctx : ℕ → Io Blob
  urma_get_seg_ctx tseg w =
      let r = p.urma_get_seg_ctx w.trace tseg in (ok r, log w (Event.urma_get_seg_ctx tseg r.raw))

  abbrev pub urma_get_rjetty : ℕ → Io Blob
  urma_get_rjetty jetty w =
      let r = p.urma_get_rjetty w.trace jetty in (ok r, log w (Event.urma_get_rjetty jetty r.raw))

  abbrev pub urma_post_jetty_send_wr : ℕ → WrMemory → Io ℤ
  urma_post_jetty_send_wr jetty wr w =
      let r = p.urma_post_jetty_send_wr w.trace jetty wr in
      (ok r, log w (Event.urma_post_jetty_send_wr jetty wr r))

  abbrev pub alloc_zeroed : ℕ → ℕ → Io ℕ
  alloc_zeroed size align w =
      let r = p.alloc_zeroed w.trace size align in (ok r, log w (Event.alloc_zeroed size align r))
