-- ===== src/Ffi/Liburma.antt =====
-- The extern block of src/ffi.rs. liburma.so is not part of the repository: it is a record of
-- functions from all calls made so far to the answer, so that any behaviour is one such record.
-- A call and its answer make an event; a trace lists them, the latest first.
use urma_rs.Base.{ℕ, ℤ, List, Option}
use urma_rs.Urma.Values.{UrmaJettyId}
use urma_rs.Ffi.Flags.ImportSegFlag.{UrmaImportSegFlag}
use urma_rs.Ffi.Structs.{
  UrmaInitAttr, UrmaEidInfo, UrmaToken, UrmaJfcCfg, UrmaJfrCfg, UrmaJettyCfg, UrmaRjetty, UrmaSeg,
  UrmaSegCfg, UrmaCr,
}
use urma_rs.Ffi.Requests.{WrMemory}
use urma_rs.Ffi.DeviceCap.{UrmaDeviceCap}

-- What an import is handed: a struct of its own, or a blob that begins with one.
pub data SegArg : Type 0 where
  plain : UrmaSeg → SegArg
  blob : List ℕ → SegArg

pub data RjettyArg : Type 0 where
  plain : UrmaRjetty → RjettyArg
  blob : List ℕ → RjettyArg

-- Each constructor is the C function of that name, with its arguments and then its answer.
pub data Event : Type 0 where
  urma_init : UrmaInitAttr → ℤ → Event
  urma_uninit : Event
  urma_get_device_list : ℕ → Event
  urma_free_device_list : ℕ → Event
  urma_get_device_by_name : List ℕ → ℕ → Event
  urma_query_device : ℕ → ℤ → Event
  urma_get_eid_list : ℕ → ℕ → Event
  urma_free_eid_list : ℕ → Event
  urma_create_context : ℕ → ℕ → ℕ → Event
  urma_delete_context : ℕ → Event
  urma_create_jfce : ℕ → ℕ → Event
  urma_delete_jfce : ℕ → Event
  urma_create_jfc : ℕ → UrmaJfcCfg → ℕ → Event
  urma_delete_jfc : ℕ → Event
  urma_poll_jfc : ℕ → ℕ → ℤ → Event
  urma_create_jfr : ℕ → UrmaJfrCfg → ℕ → Event
  urma_delete_jfr : ℕ → Event
  urma_post_jfr_wr : ℕ → WrMemory → ℤ → Event
  urma_create_jetty : ℕ → UrmaJettyCfg → ℕ → Event
  urma_delete_jetty : ℕ → Event
  urma_import_jetty : ℕ → RjettyArg → UrmaToken → ℕ → Event
  urma_unimport_jetty : ℕ → Event
  urma_register_seg : ℕ → UrmaSegCfg → ℕ → Event
  urma_unregister_seg : ℕ → Event
  urma_import_seg : ℕ → SegArg → UrmaToken → UrmaImportSegFlag → ℕ → Event
  urma_unimport_seg : ℕ → Event
  urma_get_seg_ctx : ℕ → ℕ → Event
  urma_put_seg_ctx : ℕ → Event
  urma_get_rjetty : ℕ → ℕ → Event
  urma_put_rjetty : ℕ → Event
  urma_post_jetty_send_wr : ℕ → WrMemory → ℤ → Event
  -- The allocator of std and `std::thread::sleep`, in milliseconds.
  alloc_zeroed : ℕ → ℕ → ℕ → Event
  dealloc : ℕ → ℕ → Event
  sleep : ℕ → Event

abbrev pub Trace : Type 0
Trace = List Event

-- A list that the library owns: its pointer, the count that it reports, and what stands at each
-- index of the array. A device is known by its name, `none` is a NULL entry.
pub record DeviceList : Type 0 where
  pub list : ℕ
  pub cnt : ℤ
  pub name : ℕ → Option (List ℕ)

pub record EidList : Type 0 where
  pub list : ℕ
  pub cnt : ℕ
  pub info : ℕ → UrmaEidInfo

-- An exported blob: the status, the buffer's pointer, its size and the bytes in it.
pub record Blob : Type 0 where
  pub status : ℤ
  pub raw : ℕ
  pub size : ℕ
  pub byte : ℕ → ℕ

pub record Polled : Type 0 where
  pub n : ℤ
  pub cr : ℕ → UrmaCr

pub record Queried : Type 0 where
  pub status : ℤ
  pub dev_cap : UrmaDeviceCap

-- `errno` is what `last_os_error` reads after those calls; `jetty_id_of` and `seg_of` are memory
-- that the library wrote behind the pointers that it returned.
pub record Liburma : Type 0 where
  pub errno : Trace → ℤ
  pub urma_init : Trace → UrmaInitAttr → ℤ
  pub urma_get_device_list : Trace → DeviceList
  pub urma_get_device_by_name : Trace → List ℕ → ℕ
  pub urma_query_device : Trace → ℕ → Queried
  pub urma_get_eid_list : Trace → ℕ → EidList
  pub urma_create_context : Trace → ℕ → ℕ → ℕ
  pub urma_create_jfce : Trace → ℕ → ℕ
  pub urma_create_jfc : Trace → ℕ → UrmaJfcCfg → ℕ
  pub urma_poll_jfc : Trace → ℕ → ℕ → Polled
  pub urma_create_jfr : Trace → ℕ → UrmaJfrCfg → ℕ
  pub urma_post_jfr_wr : Trace → ℕ → WrMemory → ℤ
  pub urma_create_jetty : Trace → ℕ → UrmaJettyCfg → ℕ
  pub jetty_id_of : Trace → ℕ → UrmaJettyId
  pub urma_import_jetty : Trace → ℕ → RjettyArg → UrmaToken → ℕ
  pub urma_register_seg : Trace → ℕ → UrmaSegCfg → ℕ
  pub seg_of : Trace → ℕ → UrmaSeg
  pub urma_import_seg : Trace → ℕ → SegArg → UrmaToken → UrmaImportSegFlag → ℕ
  pub urma_get_seg_ctx : Trace → ℕ → Blob
  pub urma_get_rjetty : Trace → ℕ → Blob
  pub urma_post_jetty_send_wr : Trace → ℕ → WrMemory → ℤ
  pub alloc_zeroed : Trace → ℕ → ℕ → ℕ
