-- ===== src/Bench/Desc/RoundTrip.antt =====
-- A descriptor that is packed is unpacked, whatever the number of its blobs.
use urma_rs.Base.{
  ℕ, suc, ◌%◌, ◌^◌, ◌<◌, ◌==◌, ◌≡◌, refl, subst, List, [], ◌∷◌, ◌++◌, length, map, All, arith,
  false,
}
use mathlib.Core.List.{append_assoc, append-nil}
use urma_rs.Error.{ok, truncated_at, truncated_at_nth}
use urma_rs.Cli.Hex.RoundTrip.{IsByte, IsWhite, hex_dec-hex_enc}
use urma_rs.Cli.Reader.{le_bytes}
use urma_rs.Cli.Desc.RoundTrip.{
  IsSeg, append-IsByte, seg_bytes-IsByte, le_bytes-IsByte, read_seg-append, number-append,
  take-append,
}
use urma_rs.Bench.Desc.{
  WireDesc, blob_lens, blobs, desc_bytes, pack_desc, read_lens, read_blobs, at_end, read_desc,
  unpack_desc,
}

-- A blob of bytes whose length fits a u32.
abbrev pub IsBlob : List ℕ → Type 0
IsBlob b = All IsByte b × (length b < 2 ^ 32)

-- The widths of the fields, and at least one blob.
pub record IsDesc (d : WireDesc) : Type 0 where
  pub seg_fits : IsSeg d.seg
  pub seg_ctx_bytes : All IsByte d.seg_ctx
  pub seg_ctx_fits : length d.seg_ctx < 2 ^ 32
  pub rjetty_blobs : All IsBlob d.rjetty
  pub rjetty_some : 0 < length d.rjetty
  pub rjetty_fits : length d.rjetty < 2 ^ 32

read_lens-append :
    (i : ℕ) (rjs : List (List ℕ)) (rest : List ℕ)
    → All IsBlob rjs
    → read_lens i (length rjs) (blob_lens rjs ++ rest) ≡ ok (map length rjs, rest)
unfolding read_lens blob_lens
read_lens-append i [] rest h = refl
read_lens-append i (rj ∷ rjs) rest h =
    let n : length rj % 2 ^ 32 ≡ length rj = omega (arith, h.0.1) in
    simp
      (
        n,
        append_assoc,
        number-append 4 (truncated_at_nth "rjetty length" i) (length rj) (blob_lens rjs ++ rest)
            h.0.1,
        read_lens-append (suc i) rjs rest h.1,
      )
      refl

read_blobs-append :
    (i : ℕ) (rjs : List (List ℕ)) (rest : List ℕ)
    → read_blobs i (map length rjs) (blobs rjs ++ rest) ≡ ok (rjs, rest)
unfolding read_blobs blobs
read_blobs-append i [] rest = refl
read_blobs-append i (rj ∷ rjs) rest =
    simp
      (
        append_assoc,
        take-append (truncated_at_nth "rjetty" i) (length rj) rj (blobs rjs ++ rest) refl,
        read_blobs-append (suc i) rjs rest,
      )
      refl

read_blobs_all :
    (i : ℕ) (rjs : List (List ℕ)) → read_blobs i (map length rjs) (blobs rjs) ≡ ok (rjs, [])
read_blobs_all i rjs =
    subst (λ b. read_blobs i (map length rjs) b ≡ ok (rjs, [])) (append-nil (blobs rjs))
      (read_blobs-append i rjs [])

blob_lens-IsByte : (rjs : List (List ℕ)) → All IsByte (blob_lens rjs)
unfolding blob_lens
blob_lens-IsByte [] = tt
blob_lens-IsByte (rj ∷ rjs) =
    append-IsByte (le_bytes 4 (length rj % 2 ^ 32)) (blob_lens rjs)
      (le_bytes-IsByte 4 (length rj % 2 ^ 32)) (blob_lens-IsByte rjs)

blobs-IsByte : (rjs : List (List ℕ)) → All IsBlob rjs → All IsByte (blobs rjs)
unfolding blobs
blobs-IsByte [] h = tt
blobs-IsByte (rj ∷ rjs) h = append-IsByte rj (blobs rjs) h.0.0 (blobs-IsByte rjs h.1)

desc_bytes-IsByte : (d : WireDesc) → IsDesc d → All IsByte (desc_bytes d)
unfolding desc_bytes
desc_bytes-IsByte d v = search (
  append-IsByte,
  le_bytes-IsByte,
  seg_bytes-IsByte d.seg v.seg_fits,
  v.seg_ctx_bytes,
  blob_lens-IsByte,
  blobs-IsByte d.rjetty v.rjetty_blobs,
)

read_desc-desc_bytes : (d : WireDesc) → IsDesc d → read_desc (desc_bytes d) ≡ ok d
unfolding read_desc desc_bytes at_end
read_desc-desc_bytes d v =
    let n : length d.seg_ctx % 2 ^ 32 ≡ length d.seg_ctx = omega (arith, v.seg_ctx_fits) in
    let m : length d.rjetty % 2 ^ 32 ≡ length d.rjetty = omega (arith, v.rjetty_fits) in
    let some_blob : length d.rjetty == 0 ≡ false = ground (arith, v.rjetty_some) in
    simp
      (
        n,
        m,
        read_seg-append d.seg,
        v.seg_fits,
        number-append 4 (truncated_at "seg ctx length") (length d.seg_ctx),
        number-append 4 (truncated_at "rjetty count") (length d.rjetty),
        v.seg_ctx_fits,
        v.rjetty_fits,
        some_blob,
        read_lens-append 0 d.rjetty (d.seg_ctx ++ blobs d.rjetty) v.rjetty_blobs,
        take-append (truncated_at "seg ctx") (length d.seg_ctx) d.seg_ctx (blobs d.rjetty) refl,
        read_blobs_all 0 d.rjetty,
      )
      refl

-- A descriptor of urma_bench whose fields fit their types, with sixteen bytes of eid and at least
-- one blob, is read back from the line that is printed for it, with any white space around the
-- line.
pub unpack_desc-pack_desc_blobs :
    (before after : List ℕ) (d : WireDesc)
    → All IsWhite before
    → All IsWhite after
    → IsDesc d
    → unpack_desc (before ++ (pack_desc d ++ after)) ≡ ok d
unfolding unpack_desc pack_desc
unpack_desc-pack_desc_blobs before after d w w' v =
    rw (hex_dec-hex_enc before (desc_bytes d) after w (desc_bytes-IsByte d v) w')
      (read_desc-desc_bytes d v)
