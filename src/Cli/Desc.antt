-- ===== src/Cli/Desc.antt =====
-- examples/urma_cli.rs: the descriptor that travels as one hex line.
pub mod RoundTrip
use urma_rs.Base.{ℕ, ◌%◌, ◌^◌, List, [], ◌∷◌, ◌++◌, length, if◌then◌else◌}
use urma_rs.Error.{Result, ok, err, invalid, truncated_at, trailing_bytes, ◌>>=◌}
use urma_rs.Urma.Values.{SegDesc}
use urma_rs.Cli.Hex.{hex_enc, hex_dec}
use urma_rs.Cli.Reader.{take, number, le_bytes}

pub record WireDesc : Type 0 where
  pub seg : SegDesc
  pub seg_ctx : List ℕ
  pub rjetty : List ℕ

-- The fields of the segment, as both tools write them first.
unfoldable pub seg_bytes : SegDesc → List ℕ
seg_bytes seg =
    seg.eid.bytes
    ++ (le_bytes 4 seg.uasid
        ++ (le_bytes 8 seg.va
            ++ (le_bytes 8 seg.len ++ (le_bytes 4 seg.attr ++ le_bytes 4 seg.token_id))))

unfoldable pub desc_bytes : WireDesc → List ℕ
desc_bytes d =
    seg_bytes d.seg
    ++ (le_bytes 4 (length d.seg_ctx % 2 ^ 32)
        ++ (le_bytes 4 (length d.rjetty % 2 ^ 32) ++ (d.seg_ctx ++ d.rjetty)))

unfoldable pub pack_desc : WireDesc → List ℕ
pack_desc d = hex_enc (desc_bytes d)

-- The segment, and the bytes behind it.
unfoldable pub read_seg : List ℕ → Result (SegDesc × List ℕ)
read_seg b = do
  (eid, b1) ← take (truncated_at "eid") 16 b
  (uasid, b2) ← number 4 (truncated_at "uasid") b1
  (va, b3) ← number 8 (truncated_at "va") b2
  (len, b4) ← number 8 (truncated_at "len") b3
  (attr, b5) ← number 4 (truncated_at "attr") b4
  (token_id, b6) ← number 4 (truncated_at "token_id") b5
  ok (
    record {
      eid = record { bytes = eid };
      uasid = uasid;
      va = va;
      len = len;
      attr = attr;
      token_id = token_id;
    },
    b6,
  )

-- No byte may be left.
unfoldable pub at_end : WireDesc → List ℕ → Result WireDesc
at_end d [] = ok d
at_end d (x ∷ rest) = err (invalid (trailing_bytes (length (x ∷ rest))))

unfoldable pub read_desc : List ℕ → Result WireDesc
read_desc b = do
  (seg, b1) ← read_seg b
  (seg_len, b2) ← number 4 (truncated_at "seg ctx length") b1
  (rj_len, b3) ← number 4 (truncated_at "rjetty length") b2
  (seg_ctx, b4) ← take (truncated_at "seg ctx") seg_len b3
  (rjetty, b5) ← take (truncated_at "rjetty") rj_len b4
  at_end (record { seg = seg; seg_ctx = seg_ctx; rjetty = rjetty }) b5

unfoldable pub unpack_desc : List ℕ → Result WireDesc
unpack_desc s = hex_dec s >>= read_desc
