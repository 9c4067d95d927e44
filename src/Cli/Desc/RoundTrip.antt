-- ===== src/Cli/Desc/RoundTrip.antt =====
-- A descriptor that is packed is unpacked.
use urma_rs.Base.{
  ℕ, zero, suc, ◌/◌, ◌%◌, ◌^◌, ◌<◌, ◌≡◌, refl, ap, subst, List, [], ◌∷◌, ◌++◌, length,
  take as take_list, drop, All, All-append, arith, length-append,
}
use native.Mathlib.Nat.{pow-suc}
use mathlib.Core.List.{append_assoc, append-nil}
use urma_rs.Error.{Message, ok, truncated_at}
use urma_rs.Urma.Values.{SegDesc}
use urma_rs.Cli.Hex.RoundTrip.{IsByte, IsWhite, hex_dec-hex_enc}
use urma_rs.Cli.Reader.{take, number, le_bytes, le_val}
use urma_rs.Cli.Desc.{
  WireDesc, seg_bytes, desc_bytes, pack_desc, unpack_desc, read_seg, read_desc, at_end,
}

pub length-le_bytes : (k v : ℕ) → length (le_bytes k v) ≡ k
unfolding le_bytes
length-le_bytes zero v = refl
length-le_bytes (suc k) v = omega (arith, length-le_bytes k (v / 256))

pub le_bytes-IsByte : (k v : ℕ) → All IsByte (le_bytes k v)
unfolding le_bytes
le_bytes-IsByte zero v = tt
le_bytes-IsByte (suc k) v = (omega arith, le_bytes-IsByte k (v / 256))

pub le_val-le_bytes : (k v : ℕ) → v < 256 ^ k → le_val (le_bytes k v) ≡ v
unfolding le_bytes le_val
le_val-le_bytes zero v h = omega arith
le_val-le_bytes (suc k) v h =
    let below : v / 256 < 256 ^ k = omega (arith, pow-suc 256 k) in
    omega (arith, le_val-le_bytes k (v / 256) below)

pub take_list-append {ℓ} : {A : Type ℓ} (xs ys : List A) → take_list (length xs) (xs ++ ys) ≡ xs
take_list-append [] ys = refl
take_list-append (x ∷ xs) ys = rw (take_list-append xs ys)

pub drop-append {ℓ} : {A : Type ℓ} (xs ys : List A) → drop (length xs) (xs ++ ys) ≡ ys
drop-append [] ys = refl
drop-append (x ∷ xs) ys = drop-append xs ys

-- A reader takes back what stands in front.
pub take-append :
    (short : Message) (n : ℕ) (xs rest : List ℕ)
    → length xs ≡ n
    → take short n (xs ++ rest) ≡ ok (xs, rest)
unfolding take
take-append short n xs rest e = ground (
  arith,
  length-append xs rest,
  ap (λ (m : ℕ). take_list m (xs ++ rest)) e,
  ap (λ (m : ℕ). drop m (xs ++ rest)) e,
  take_list-append xs rest,
  drop-append xs rest,
)

pub take_all : (short : Message) (xs : List ℕ) → take short (length xs) xs ≡ ok (xs, [])
take_all short xs =
    subst (λ ys. take short (length xs) ys ≡ ok (xs, [])) (append-nil xs)
      (take-append short (length xs) xs [] refl)

pub number-append :
    (k : ℕ) (short : Message) (v : ℕ) (rest : List ℕ)
    → v < 256 ^ k
    → number k short (le_bytes k v ++ rest) ≡ ok (v, rest)
unfolding number
number-append k short v rest h =
    ground
      (arith, take-append short k (le_bytes k v) rest (length-le_bytes k v), le_val-le_bytes k v h)

-- The widths of the fields, and bytes in the place of bytes.
pub record IsSeg (seg : SegDesc) : Type 0 where
  pub eid_length : length seg.eid.bytes ≡ 16
  pub eid_bytes : All IsByte seg.eid.bytes
  pub uasid_fits : seg.uasid < 2 ^ 32
  pub va_fits : seg.va < 2 ^ 64
  pub len_fits : seg.len < 2 ^ 64
  pub attr_fits : seg.attr < 2 ^ 32
  pub token_id_fits : seg.token_id < 2 ^ 32

pub record IsDesc (d : WireDesc) : Type 0 where
  pub seg_fits : IsSeg d.seg
  pub seg_ctx_bytes : All IsByte d.seg_ctx
  pub seg_ctx_fits : length d.seg_ctx < 2 ^ 32
  pub rjetty_bytes : All IsByte d.rjetty
  pub rjetty_fits : length d.rjetty < 2 ^ 32

pub read_seg-append :
    (seg : SegDesc) (rest : List ℕ) → IsSeg seg → read_seg (seg_bytes seg ++ rest) ≡ ok (seg, rest)
unfolding read_seg seg_bytes
read_seg-append seg rest v =
    simp
      (
        append_assoc,
        take-append (truncated_at "eid") 16 seg.eid.bytes,
        number-append 4 (truncated_at "uasid") seg.uasid,
        number-append 8 (truncated_at "va") seg.va,
        number-append 8 (truncated_at "len") seg.len,
        number-append 4 (truncated_at "attr") seg.attr,
        number-append 4 (truncated_at "token_id") seg.token_id,
        v.eid_length,
        v.uasid_fits,
        v.va_fits,
        v.len_fits,
        v.attr_fits,
        v.token_id_fits,
      )
      refl

pub append-IsByte : (xs ys : List ℕ) → All IsByte xs → All IsByte ys → All IsByte (xs ++ ys)
append-IsByte xs ys = All-append IsByte xs ys

pub seg_bytes-IsByte : (seg : SegDesc) → IsSeg seg → All IsByte (seg_bytes seg)
unfolding seg_bytes
seg_bytes-IsByte seg v =
    let last : All IsByte (le_bytes 4 seg.attr ++ le_bytes 4 seg.token_id) =
      search (append-IsByte, le_bytes-IsByte) in
    search (append-IsByte, le_bytes-IsByte, v.eid_bytes, last)

desc_bytes-IsByte : (d : WireDesc) → IsDesc d → All IsByte (desc_bytes d)
unfolding desc_bytes
desc_bytes-IsByte d v = search (
  append-IsByte,
  le_bytes-IsByte,
  seg_bytes-IsByte d.seg v.seg_fits,
  v.seg_ctx_bytes,
  v.rjetty_bytes,
)

read_desc-desc_bytes : (d : WireDesc) → IsDesc d → read_desc (desc_bytes d) ≡ ok d
unfolding read_desc desc_bytes at_end
read_desc-desc_bytes d v =
    let n : length d.seg_ctx % 2 ^ 32 ≡ length d.seg_ctx = omega (arith, v.seg_ctx_fits) in
    let m : length d.rjetty % 2 ^ 32 ≡ length d.rjetty = omega (arith, v.rjetty_fits) in
    simp
      (
        n,
        m,
        read_seg-append d.seg,
        v.seg_fits,
        number-append 4 (truncated_at "seg ctx length") (length d.seg_ctx),
        number-append 4 (truncated_at "rjetty length") (length d.rjetty),
        v.seg_ctx_fits,
        v.rjetty_fits,
        take-append (truncated_at "seg ctx") (length d.seg_ctx) d.seg_ctx,
        take_all (truncated_at "rjetty") d.rjetty,
      )
      refl

-- A descriptor of urma_cli whose fields fit their types and whose eid has sixteen bytes is read
-- back from the line that is printed for it, with any white space around the line, a line break
-- included.
pub unpack_desc-pack_desc :
    (before after : List ℕ) (d : WireDesc)
    → All IsWhite before
    → All IsWhite after
    → IsDesc d
    → unpack_desc (before ++ (pack_desc d ++ after)) ≡ ok d
unfolding unpack_desc pack_desc
unpack_desc-pack_desc before after d w w' v =
    rw (hex_dec-hex_enc before (desc_bytes d) after w (desc_bytes-IsByte d v) w')
      (read_desc-desc_bytes d v)
