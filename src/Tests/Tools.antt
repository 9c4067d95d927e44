-- ===== src/Tests/Tools.antt =====
-- The command line tool and the arguments of the benchmark.
use urma_rs.Base.{
  ℕ, ◌+◌, ◌-◌, ◌%◌, ◌^◌, ◌≤◌, ◌≡◌, ◌↔◌, ◌⊎◌, refl, false, List, [], ◌∷◌, ◌++◌, none, arith,
}
use urma_rs.Error.{ok, Ensures}
use urma_rs.Urma.Values.{SegDesc}
use urma_rs.Urma.Cap.{DeviceCap, from_raw}
use urma_rs.Cli.Preflight.{ModeArg, TpArg, ModeArgs}
use urma_rs.Cli.Run.{ReadArgs, check_range}
use urma_rs.Cli.Run.Range.{check_range_lem}
use urma_rs.Cli.Desc.{WireDesc, pack_desc, unpack_desc}
use urma_rs.Cli.Desc.RoundTrip.{unpack_desc-pack_desc}
use urma_rs.Bench.Desc as Blobs
use urma_rs.Bench.Desc.RoundTrip.{unpack_desc-pack_desc_blobs}
use urma_rs.Bench.Sizes.{parse_sizes}
use urma_rs.Bench.Sizes.Laws.{IsSweep, parse_sizes-IsSweep}
use urma_rs.Bench.Pattern.{check_pat, fill_from}
use urma_rs.Bench.Pattern.Laws.{check_pat-shift}
use urma_rs.Bench.Limits.{OneSidedArgs, landing_len, cap_of}
use urma_rs.Bench.Limits.Laws.{landing_len-room}
use urma_rs.Tests.Library.{raw_cap, eid}

abbrev cap : DeviceCap
unfolding from_raw
cap = from_raw raw_cap

abbrev mode : ModeArgs
mode = record {
  dev = b'b' ∷ b'o' ∷ b'n' ∷ b'd' ∷ b'i' ∷ b'n' ∷ b'g' ∷ b'0' ∷ [];
  mode = ModeArg.rm;
  tp = TpArg.ctp;
  multi_path = false;
}

abbrev seg : SegDesc
seg = record {
  eid = record { bytes = eid };
  uasid = 0x2233;
  va = 0x12345678;
  len = 4096;
  attr = 0x4001;
  token_id = 7;
}

abbrev read_args : ReadArgs
read_args = record { mode = mode; desc = b'-' ∷ []; offset = 2 ^ 64 - 64; len = 64 }

check_range_lem_example : (check_range read_args seg ≡ ok tt) ↔ (
    (2 ^ 64 - 64 + 64 ≤ 4096) ⊎ ((2 ^ 64 ≤ 2 ^ 64 - 64 + 64) × (2 ^ 64 - 64 + 64 ≤ 2 ^ 64 + 4096)))
check_range_lem_example = check_range_lem read_args seg (omega arith) (omega arith)

abbrev one_blob : WireDesc
one_blob = record { seg = seg; seg_ctx = 0xaa ∷ 0xab ∷ []; rjetty = 0xbb ∷ [] }

unpack_desc-pack_desc_example :
    unpack_desc ((32 ∷ []) ++ (pack_desc one_blob ++ (10 ∷ []))) ≡ ok one_blob
unpack_desc-pack_desc_example =
    unpack_desc-pack_desc (32 ∷ []) (10 ∷ []) one_blob (refl, tt) (refl, tt)
      (record {
        seg_fits = omega arith;
        seg_ctx_bytes = omega arith;
        seg_ctx_fits = omega arith;
        rjetty_bytes = omega arith;
        rjetty_fits = omega arith;
      })

abbrev two_blobs : Blobs.WireDesc
two_blobs = record {
  seg = seg;
  seg_ctx = 0xaa ∷ 0xab ∷ [];
  rjetty = (0xbb ∷ []) ∷ (0xcc ∷ 0xcd ∷ []) ∷ [];
}

unpack_desc-pack_desc_blobs_example :
    Blobs.unpack_desc ((32 ∷ []) ++ (Blobs.pack_desc two_blobs ++ (10 ∷ []))) ≡ ok two_blobs
unpack_desc-pack_desc_blobs_example =
    unpack_desc-pack_desc_blobs (32 ∷ []) (10 ∷ []) two_blobs (refl, tt) (refl, tt)
      (record {
        seg_fits = omega arith;
        seg_ctx_bytes = omega arith;
        seg_ctx_fits = omega arith;
        rjetty_blobs = omega arith;
        rjetty_some = omega arith;
        rjetty_fits = omega arith;
      })

-- "64,8".
abbrev list_spec : List ℕ
list_spec = b'6' ∷ b'4' ∷ b',' ∷ b'8' ∷ []

parse_sizes-IsSweep_example : Ensures IsSweep (parse_sizes list_spec)
parse_sizes-IsSweep_example = parse_sizes-IsSweep list_spec

check_pat-shift_example :
    (check_pat "verify read" (fill_from 4096 (0 ∷ 0 ∷ [])) ≡ ok tt) ↔ (4096 % 256 ≡ 0)
check_pat-shift_example = check_pat-shift "verify read" 4096 0 (0 ∷ [])

abbrev deep : OneSidedArgs
deep = record {
  mode = mode;
  priority = none;
  iters = 1000;
  warmup = 100;
  sizes = list_spec;
  desc = b'-' ∷ [];
  depth = 64;
  duration = 0;
  cq_mod = 0;
  jetties = 2;
  post_list = 1;
  landing_cap = none;
}

landing_len-room_example :
    (2 ^ 31 ≤ landing_len deep (2 ^ 31)) ↔ ((64 ≤ 1) ⊎ (2 ^ 31 ≤ cap_of deep))
landing_len-room_example = landing_len-room deep (2 ^ 31) (omega arith)
