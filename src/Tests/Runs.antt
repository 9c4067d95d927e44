-- ===== src/Tests/Runs.antt =====
-- Runs: the calls that operations make, in order.
use urma_rs.Base.{◌≡◌, refl, pos, [], ◌∷◌}
use urma_rs.Error.{Result, ok, err, null, check_status}
use urma_rs.Ffi.Liburma.{Liburma, Event}
use urma_rs.Ffi.World.{World}
use urma_rs.Urma.Init.{drop_urma, init, thread_exit}
use urma_rs.Urma.Context.{drop_context}
use urma_rs.Urma.Cq.{drop_cq}
use urma_rs.Urma.Cq
use urma_rs.Urma.Jetty.{drop_jetty, export_rjetty}
use urma_rs.Urma.Jetty
use urma_rs.Urma.Seg.{drop_seg, new_registered_buf, export_seg_ctx}
use urma_rs.Urma.Cap.{supports_mode, supports}
use urma_rs.Ffi.Flags.TpTypeCap.{ctp}
use urma_rs.Ffi.Flags.DeviceFeature.{ctp_en}
use urma_rs.Urma.Context
use urma_rs.Urma.Device.{list_devices, query_device}
use urma_rs.Urma.Release.{held}
use urma_rs.Common.Res.{UrmaRes, create, drop_res}
use urma_rs.Common.Res.Scope.{IsTidy}
use urma_rs.Common.Res.Failure.{create-fails}
use urma_rs.Cli.Run.Start.{IsReady}
use urma_rs.Common.Support.{check_mode_support}
use urma_rs.Tests.Library.{working, empty, ctx}

-- The context is deleted before the library is shut down, and that at the end of the thread.
open_and_close :
    (thread_exit (
      drop_urma 0
        (drop_context ctx (Context.create working 0 (100 ∷ []) (init working empty).1).1))).trace
    ≡ Event.urma_uninit
      ∷ Event.urma_delete_context 104
      ∷ Event.urma_create_context 101 2 104
      ∷ Event.urma_free_eid_list 102
      ∷ Event.urma_get_eid_list 101 102
      ∷ Event.urma_get_device_by_name (100 ∷ []) 101
      ∷ Event.urma_init (record { token = 0; uasid = 0 }) (pos 0)
      ∷ []
unfolding thread_exit drop_urma drop_context Context.create init check_status
open_and_close = refl

-- Devices without an entry are skipped.
devices : (list_devices working empty).0 ≡ ok ((100 ∷ []) ∷ [])
unfolding list_devices check_status
devices = refl

-- All resources of a node are given back when the bundle is dropped and the thread ends.
after_drop : Result UrmaRes × World → World
after_drop (ok r, w) = thread_exit (drop_res r w)
after_drop (_, w) = w

all_given_back : held (after_drop (create working (100 ∷ []) empty)).trace ≡ []
unfolding after_drop create drop_res thread_exit check_mode_support check_status held query_device
    supports_mode supports ctp ctp_en Context.create Cq.new Jetty.new new_registered_buf
    export_seg_ctx export_rjetty drop_seg drop_context drop_jetty drop_cq
all_given_back = refl

-- The registration of the buffer fails.
abbrev no_segment : Liburma
no_segment = record working { urma_register_seg = λ tr ctx cfg. 0 }

empty-IsReady : IsReady empty
empty-IsReady i e = absurd (cc)

no_segment-IsTidy : IsTidy no_segment
no_segment-IsTidy = record { seg_ctx = λ tr t e. absurd (cc); rjetty = λ tr j e. absurd (cc) }

refused : (create no_segment (100 ∷ []) empty).0 ≡ err (null "urma_register_seg" (pos 0))
unfolding create check_mode_support check_status query_device supports_mode supports ctp ctp_en
    Context.create Cq.new Jetty.new new_registered_buf
refused = refl

create-fails_example : held (create no_segment (100 ∷ []) empty).1.trace ≡ held empty.trace
create-fails_example =
    create-fails no_segment no_segment-IsTidy (100 ∷ []) empty (null "urma_register_seg" (pos 0))
      empty-IsReady refused
