-- ===== src/Urma/Release.antt =====
-- Which C objects and buffers are held after a trace: what was created, registered, imported,
-- exported or allocated and not yet given back. The children prove what the operations of
-- src/urma.rs leave held, on success and on failure.
pub mod Create
pub mod Import
pub mod Drop
pub mod Scope
use urma_rs.Base.{ℕ, ◌+◌, ◌==◌, ◌&&◌, Bool, List, [], ◌∷◌, if◌then◌else◌}
use urma_rs.Ffi.Liburma.{Event, Trace}

pub data Kind : Type 0 where
  device_list eid_list context jfce jfc jfr jetty seg target_seg target_jetty : Kind
  seg_ctx rjetty memory : Kind

abbrev code : Kind → ℕ
code device_list = 0
code eid_list = 1
code context = 2
code jfce = 3
code jfc = 4
code jfr = 5
code jetty = 6
code seg = 7
code target_seg = 8
code target_jetty = 9
code seg_ctx = 10
code rjetty = 11
code memory = 12

pub record Held : Type 0 where
  pub kind : Kind
  pub ptr : ℕ

-- A NULL answer holds nothing.
abbrev pub take_up : Kind → ℕ → List Held → List Held
take_up k r hs = if r == 0 then hs else (record { kind = k; ptr = r } ∷ hs)

-- The latest object of that kind and address is given back.
abbrev pub give_back : Kind → ℕ → List Held → List Held
give_back k r [] = []
give_back k r (h ∷ hs) = if code h.kind == code k && h.ptr == r then hs else (h ∷ give_back k r hs)

abbrev pub held_after : Event → List Held → List Held
held_after (Event.urma_get_device_list r) hs = take_up device_list r hs
held_after (Event.urma_free_device_list r) hs = give_back device_list r hs
held_after (Event.urma_get_eid_list dev r) hs = take_up eid_list r hs
held_after (Event.urma_free_eid_list r) hs = give_back eid_list r hs
held_after (Event.urma_create_context dev i r) hs = take_up context r hs
held_after (Event.urma_delete_context r) hs = give_back context r hs
held_after (Event.urma_create_jfce c r) hs = take_up jfce r hs
held_after (Event.urma_delete_jfce r) hs = give_back jfce r hs
held_after (Event.urma_create_jfc c cfg r) hs = take_up jfc r hs
held_after (Event.urma_delete_jfc r) hs = give_back jfc r hs
held_after (Event.urma_create_jfr c cfg r) hs = take_up jfr r hs
held_after (Event.urma_delete_jfr r) hs = give_back jfr r hs
held_after (Event.urma_create_jetty c cfg r) hs = take_up jetty r hs
held_after (Event.urma_delete_jetty r) hs = give_back jetty r hs
held_after (Event.urma_register_seg c cfg r) hs = take_up seg r hs
held_after (Event.urma_unregister_seg r) hs = give_back seg r hs
held_after (Event.urma_import_seg c s t f r) hs = take_up target_seg r hs
held_after (Event.urma_unimport_seg r) hs = give_back target_seg r hs
held_after (Event.urma_import_jetty c j t r) hs = take_up target_jetty r hs
held_after (Event.urma_unimport_jetty r) hs = give_back target_jetty r hs
held_after (Event.urma_get_seg_ctx t r) hs = take_up seg_ctx r hs
held_after (Event.urma_put_seg_ctx r) hs = give_back seg_ctx r hs
held_after (Event.urma_get_rjetty j r) hs = take_up rjetty r hs
held_after (Event.urma_put_rjetty r) hs = give_back rjetty r hs
held_after (Event.alloc_zeroed s a r) hs = take_up memory r hs
held_after (Event.dealloc r s) hs = give_back memory r hs
held_after _ hs = hs

unfoldable pub held : Trace → List Held
held [] = []
held (e ∷ tr) = held_after e (held tr)
