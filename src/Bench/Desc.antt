-- ===== src/Bench/Desc.antt =====
-- examples/urma_bench.rs: the descriptor with one rjetty blob for each jetty. The segment and the
-- reader are those of examples/urma_cli.rs, written out there a second time.
pub mod RoundTrip
use urma_rs.Base.{ℕ, zero, suc, ◌%◌, ◌^◌, ◌==◌, List, [], ◌∷◌, ◌++◌, length, if◌then◌else◌}
use urma_rs.Error.{
  Result, ok, err, invalid, text, truncated_at, truncated_at_nth, trailing_bytes, ◌>>=◌,
}
use urma_rs.Urma.Values.{SegDesc}
use urma_rs.Cli.Hex.{hex_enc, hex_dec}
use urma_rs.Cli.Reader.{take, number, le_bytes}
use urma_rs.Cli.Desc.{seg_bytes, read_seg}

pub record WireDesc : Type 0 where
  pub seg : SegDesc
  pub seg_ctx : List ℕ
  pub rjetty : List (List ℕ)

-- The lengths of the blobs, and the blobs.
unfoldable pub blob_lens : List (List ℕ) → List ℕ
blob_lens [] = []
blob_lens (rj ∷ rjs) = le_bytes 4 (length rj % 2 ^ 32) ++ blob_lens rjs

unfoldable pub blobs : List (List ℕ) → List ℕ
blobs [] = []
blobs (rj ∷ rjs) = rj ++ blobs rjs

unfoldable pub desc_bytes : WireDesc → List ℕ
desc_bytes d =
    seg_bytes d.seg
    ++ (le_bytes 4 (length d.seg_ctx % 2 ^ 32)
        ++ (le_bytes 4 (length d.rjetty % 2 ^ 32)
            ++ (blob_lens d.rjetty ++ (d.seg_ctx ++ blobs d.rjetty))))

unfoldable pub pack_desc : WireDesc → List ℕ
pack_desc d = hex_enc (desc_bytes d)

-- `k` lengths, of the blobs from number `i` on.
unfoldable pub read_lens : ℕ → ℕ → List ℕ → Result (List ℕ × List ℕ)
read_lens i zero b = ok ([], b)
read_lens i (suc k) b = do
  (len, b1) ← number 4 (truncated_at_nth "rjetty length" i) b
  (lens, b2) ← read_lens (suc i) k b1
  ok (len ∷ lens, b2)

unfoldable pub read_blobs : ℕ → List ℕ → List ℕ → Result (List (List ℕ) × List ℕ)
read_blobs i [] b = ok ([], b)
read_blobs i (len ∷ lens) b = do
  (rj, b1) ← take (truncated_at_nth "rjetty" i) len b
  (rjs, b2) ← read_blobs (suc i) lens b1
  ok (rj ∷ rjs, b2)

-- No byte may be left.
unfoldable pub at_end : WireDesc → List ℕ → Result WireDesc
at_end d [] = ok d
at_end d (x ∷ rest) = err (invalid (trailing_bytes (length (x ∷ rest))))

unfoldable pub read_desc : List ℕ → Result WireDesc
read_desc b = do
  (seg, b1) ← read_seg b
  (seg_len, b2) ← number 4 (truncated_at "seg ctx length") b1
  (rj_cnt, b3) ← number 4 (truncated_at "rjetty count") b2
  if rj_cnt == 0 then err (invalid (text "descriptor carries no rjetty blob")) else (do
    (rj_lens, b4) ← read_lens 0 rj_cnt b3
    (seg_ctx, b5) ← take (truncated_at "seg ctx") seg_len b4
    (rjetty, b6) ← read_blobs 0 rj_lens b5
    at_end (record { seg = seg; seg_ctx = seg_ctx; rjetty = rjetty }) b6)

unfoldable pub unpack_desc : List ℕ → Result WireDesc
unpack_desc s = hex_dec s >>= read_desc
