-- ===== src/Tests/Reads.antt =====
-- A whole `read` of the command line tool.
use urma_rs.Base.{◌≡◌, refl, pos, [], ◌∷◌, replicate, false, arith}
use urma_rs.Error.{ok}
use urma_rs.Ffi.Liburma.{Liburma}
use urma_rs.Urma.Release.{held}
use urma_rs.Urma.Cq.{Completion, wait_read, wait_loop}
use urma_rs.Cli.Preflight.{
  ModeArg, TpArg, preflight, preflight_of, missing_mode, mode_get, tp_get, resolve_path,
}
use urma_rs.Cli.Desc.{
  WireDesc, pack_desc, desc_bytes, seg_bytes, unpack_desc, read_desc, read_seg, at_end,
}
use urma_rs.Cli.Run.{
  ReadArgs, read_run, is_dash, check_range, read_urma, read_peer, read_cq, read_jetty, read_with,
  read_landing,
}
use urma_rs.Cli.Run.Start.{IsReady}
use urma_rs.Cli.Run.Whole.{held-read_run}
use urma_rs.Cli.Hex.{hex_enc, hex_dec}
use urma_rs.Cli.Reader.{le_bytes, take, number}
use urma_rs.Urma.Device.{query_device}
use urma_rs.Urma.Cap.{supports_mode, supports}
use urma_rs.Ffi.Flags.TpTypeCap.{ctp}
use urma_rs.Ffi.Flags.DeviceFeature.{ctp_en}
use urma_rs.Common.Support.{is_bonding}
use urma_rs.Urma.Context
use urma_rs.Common.Desc.{same_bytes}
use urma_rs.Urma.Cq
use urma_rs.Urma.Jetty
use urma_rs.Urma.Peer.{import_ctx}
use urma_rs.Urma.Seg.{new_registered_buf, sge}
use urma_rs.Urma.Post.{post_read}
use urma_rs.Tests.Library.{working, opened}

-- A library whose READ completes at the first poll.
abbrev reading : Liburma
reading = record working {
  urma_poll_jfc = λ tr jfc n. record {
    n = pos 1;
    cr = λ i. record { status = pos 0; user_ctx = 0x1a7; completion_len = 64 };
  };
}

abbrev remote : WireDesc
remote = record {
  seg = record {
    eid = record { bytes = replicate 16 1 };
    uasid = 0;
    va = 4096;
    len = 4096;
    attr = 0;
    token_id = 7;
  };
  seg_ctx = replicate 48 0xaa;
  rjetty = replicate 48 0xbb;
}

abbrev args : ReadArgs
args = record {
  mode = record { dev = 100 ∷ []; mode = ModeArg.rm; tp = TpArg.ctp; multi_path = false };
  desc = pack_desc remote;
  offset = 0;
  len = 64;
}

opened-IsReady : IsReady opened
opened-IsReady i e = (record { strong = 3; value = tt }, ground arith, omega arith)

held-read_run_example : held (read_run reading args (ok []) opened).1.trace ≡ held opened.trace
held-read_run_example = held-read_run reading args (ok []) opened opened-IsReady

-- The READ of it completes.
is_read :
    (read_run reading args (ok []) opened).0
    ≡ ok (record { status = pos 0; user_ctx = 0x1a7; completion_len = 64 })
unfolding read_run is_dash pack_desc hex_enc desc_bytes seg_bytes unpack_desc hex_dec le_bytes
    read_desc read_seg take number at_end check_range preflight query_device preflight_of
    missing_mode supports_mode mode_get supports tp_get ctp ctp_en resolve_path is_bonding read_urma
    Context.create read_peer same_bytes read_cq Cq.new read_jetty Jetty.new read_with import_ctx
    new_registered_buf read_landing sge post_read wait_read wait_loop
is_read = refl
