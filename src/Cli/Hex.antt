-- ===== src/Cli/Hex.antt =====
-- examples/urma_cli.rs: the hex text of a descriptor. A text is the list of its bytes, all ASCII.
pub mod RoundTrip
use urma_rs.Base.{
  ℕ, ◌+◌, ◌-◌, ◌*◌, ◌/◌, ◌%◌, ◌^◌, leb, ◌==◌, ◌&&◌, ◌||◌, not, bit_and, bit_or, Bool, List, [], ◌∷◌,
  none, some, length, get_elem?, if◌then◌else◌,
}
use urma_rs.Error.{Result, ok, err, invalid, text, bad_hex_digit, ◌>>=◌}

-- `HEX`, "0123456789abcdef".
abbrev hex_table : List ℕ
hex_table =
    b'0' ∷ b'1' ∷ b'2' ∷ b'3' ∷ b'4' ∷ b'5' ∷ b'6' ∷ b'7' ∷ b'8' ∷ b'9' ∷ b'a' ∷ b'b' ∷ b'c' ∷ b'd'
    ∷ b'e' ∷ b'f' ∷ []

-- `HEX[i]`, whose index is below 16.
unfoldable pub hex_digit : ℕ → ℕ
hex_digit i = elim (get_elem? hex_table i) [ none ↦ 0 | some c ↦ c ]

unfoldable pub hex_enc : List ℕ → List ℕ
unfolding hex_digit
hex_enc [] = []
hex_enc (b ∷ bytes) = hex_digit (b / 2 ^ 4) ∷ hex_digit (bit_and b 0xf) ∷ hex_enc bytes

unfoldable pub hex_val : ℕ → Result ℕ
hex_val c =
    if leb b'0' c && leb c b'9'
    then ok (c - b'0')
    else if leb b'a' c && leb c b'f'
    then ok (c - b'a' + 10)
    else if leb b'A' c && leb c b'F'
    then ok (c - b'A' + 10)
    else err (invalid (bad_hex_digit c))

-- What `trim` cuts off, of ASCII.
abbrev pub is_white : ℕ → Bool
is_white c = leb 9 c && leb c 13 || c == 32

unfoldable pub trim_start : List ℕ → List ℕ
trim_start [] = []
trim_start (c ∷ s) = if is_white c then trim_start s else c ∷ s

unfoldable pub trim_end : List ℕ → List ℕ
trim_end [] = []
trim_end (c ∷ s) = elim (trim_end s) [
  | [] ↦ if is_white c then [] else c ∷ []
  | d ∷ s' ↦ c ∷ d ∷ s'
]

unfoldable pub trim : List ℕ → List ℕ
unfolding trim_start trim_end
trim s = trim_end (trim_start s)

-- One byte of two digits, `hex_val(pair[0])? << 4 | hex_val(pair[1])?` on u8.
unfoldable pub pair_val : ℕ → ℕ → Result ℕ
unfolding hex_val
pair_val c d = do hi ← hex_val c; lo ← hex_val d; ok (bit_or (hi * 2 ^ 4 % 2 ^ 8) lo)

-- The loop over `chunks_exact(2)`.
unfoldable pub hex_pairs : List ℕ → Result (List ℕ)
unfolding pair_val
hex_pairs [] = ok []
hex_pairs (c ∷ []) = ok []
hex_pairs (c ∷ d ∷ s) = do b ← pair_val c d; out ← hex_pairs s; ok (b ∷ out)

unfoldable pub hex_dec : List ℕ → Result (List ℕ)
unfolding trim hex_pairs
hex_dec s =
    let s' = trim s in
    if not (length s' % 2 == 0)
    then err (invalid (text "odd-length hex descriptor"))
    else hex_pairs s'
