-- ===== src/Tests/Library.antt =====
-- A concrete library, on which every call succeeds with a pointer not given out before, and worlds
-- to start from.
use urma_rs.Base.{
  ℕ, ◌+◌, ◌^◌, ◌==◌, pos, List, [], ◌∷◌, none, some, length, replicate, if◌then◌else◌,
}
use urma_rs.Ffi.DeviceCap.{UrmaDeviceCap}
use urma_rs.Ffi.Liburma.{Liburma, Trace, Polled, Blob}
use urma_rs.Ffi.World.{World, Context}
use urma_rs.Urma.Seg.{RegisteredSeg, LocalSge}
use urma_rs.Urma.Jetty.{Jetty}
use urma_rs.Urma.Peer.{Peer}

abbrev fresh : Trace → ℕ
fresh tr = 100 + length tr

-- Two polls find nothing, the third one finds a success with user_ctx 7.
abbrev polled : Trace → Polled
polled tr = record {
  n = if length tr == 4 then pos 1 else pos 0;
  cr = λ i. record { status = pos 0; user_ctx = 7; completion_len = 64 };
}

abbrev exported : Trace → Blob
exported tr = record { status = pos 0; raw = fresh tr; size = 50; byte = λ i. i }

abbrev pub raw_cap : UrmaDeviceCap
raw_cap = record {
  feature = record { value = 2 ^ 18 };
  max_jfc = 1;
  max_jfs = 1;
  max_jfr = 1;
  max_jetty = 1;
  max_jetty_grp = 1;
  max_jetty_in_jetty_grp = 1;
  max_jfc_depth = 64;
  max_jfs_depth = 64;
  max_jfr_depth = 64;
  max_jfs_inline_len = 0;
  max_jfs_sge = 4;
  max_jfs_rsge = 1;
  max_jfr_sge = 4;
  max_msg_size = 4096;
  max_read_size = 4096;
  max_write_size = 4096;
  max_cas_size = 8;
  max_swap_size = 8;
  max_fetch_and_add_size = 8;
  max_fetch_and_sub_size = 8;
  max_fetch_and_and_size = 8;
  max_fetch_and_or_size = 8;
  max_fetch_and_xor_size = 8;
  atomic_feat = 0;
  trans_mode = 3;
  reserved = 0;
  congestion_ctrl_alg = 0;
  ceq_cnt = 1;
  max_tp_in_tpg = 1;
  max_eid_cnt = 1;
  page_size_cap = 4096;
  max_oor_cnt = 0;
  mn = 0;
  max_netaddr_cnt = 1;
  rm_order_cap = record { value = 1 };
  rc_order_cap = record { value = 1 };
  rm_tp_cap = record { value = 3 };
  rc_tp_cap = record { value = 1 };
  um_tp_cap = record { value = 4 };
  tp_feature = record { value = 1 };
  priority_info = record { sl = 0; tp_type = 1 } ∷ replicate 15 (record { sl = 1; tp_type = 2 });
}

abbrev pub eid : List ℕ
eid = replicate 16 5

abbrev pub working : Liburma
working = record {
  errno = λ tr. pos 0;
  urma_init = λ tr attr. pos 0;
  urma_get_device_list = λ tr. record {
    list = fresh tr;
    cnt = pos 2;
    name = λ i. if i == 0 then none else some (100 ∷ []);
  };
  urma_get_device_by_name = λ tr dev. fresh tr;
  urma_query_device = λ tr dev. record { status = pos 0; dev_cap = raw_cap };
  urma_get_eid_list = λ tr dev. record {
    list = fresh tr;
    cnt = 1;
    info = λ i. record { eid = record { raw = eid }; eid_index = 2 };
  };
  urma_create_context = λ tr dev i. fresh tr;
  urma_create_jfce = λ tr ctx. fresh tr;
  urma_create_jfc = λ tr ctx cfg. fresh tr;
  urma_poll_jfc = λ tr jfc n. polled tr;
  urma_create_jfr = λ tr ctx cfg. fresh tr;
  urma_post_jfr_wr = λ tr jfr wr. pos 0;
  urma_create_jetty = λ tr ctx cfg. fresh tr;
  jetty_id_of = λ tr raw. record { eid = record { raw = eid }; uasid = 0; id = raw };
  urma_import_jetty = λ tr ctx rjetty token. fresh tr;
  urma_register_seg = λ tr ctx cfg. fresh tr;
  seg_of = λ tr tseg. record {
    ubva = record { eid = eid; uasid = 0; va = 4096 };
    len = 4096;
    attr = record { value = 0 };
    token_id = 1;
  };
  urma_import_seg = λ tr ctx seg token flag. fresh tr;
  urma_get_seg_ctx = λ tr tseg. exported tr;
  urma_get_rjetty = λ tr jetty. exported tr;
  urma_post_jetty_send_wr = λ tr jetty wr. pos 0;
  alloc_zeroed = λ tr size align. 4096;
}

-- The import of a jetty always fails, with ENOEXEC.
abbrev pub no_import : Liburma
no_import = record working { urma_import_jetty = λ tr c j t. 0; errno = λ tr. pos 8 }

-- Nothing ever completes.
abbrev pub silent : Liburma
silent = record working {
  urma_poll_jfc = λ tr jfc n. record {
    n = pos 0;
    cr = λ i. record { status = pos 0; user_ctx = 0; completion_len = 0 };
  };
}

-- A success with user_ctx 3 at every poll.
abbrev pub prompt : Liburma
prompt = record working {
  urma_poll_jfc = λ tr jfc n. record {
    n = pos 1;
    cr = λ i. record { status = pos 0; user_ctx = 3; completion_len = 64 };
  };
}

-- Two records at once.
abbrev pub busy : Liburma
busy = record working {
  urma_poll_jfc = λ tr jfc n. record {
    n = pos 2;
    cr = λ i. record { status = pos 0; user_ctx = i; completion_len = 64 };
  };
}

abbrev pub empty : World
empty = record { trace = []; slot = none; urmas = []; contexts = []; cqs = [] }

abbrev pub ctx : Context
ctx = record { inner = 0; eid = record { bytes = eid } }

-- A context and a queue on it.
abbrev pub opened : World
opened = record {
  trace = [];
  slot = some 0;
  urmas = record { strong = 3; value = tt } ∷ [];
  contexts = record { strong = 2; value = record { raw = 10; urma = 0 } } ∷ [];
  cqs = record { strong = 1; value = record { jfce = 11; jfc = 12; ctx = ctx } } ∷ [];
}

abbrev pub jetty : Jetty
jetty = record {
  jfr = 20;
  raw = 21;
  id = record { eid = record { bytes = eid }; uasid = 0; id = 21 };
  max_sge = 2;
  cq = 0;
}

abbrev pub peer : Peer
peer = record { tseg = 30; tjetty = 31; ctx = ctx }

abbrev pub segment : RegisteredSeg
segment = record { tseg = 40; va = 4096; len = 4096; ctx = ctx; buf = none }

abbrev pub window : ℕ → LocalSge
window off = record { tseg = 40; addr = 4096 + off; len = 64 }
