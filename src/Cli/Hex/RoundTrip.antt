-- ===== src/Cli/Hex/RoundTrip.antt =====
-- Hex text that is written is read back.
use urma_rs.Base.{
  ℕ, zero, suc, ◌*◌, ◌/◌, ◌^◌, ◌<◌, ◌==◌, bit_and, ◌&&◌, ◌≡◌, refl, Bool, true, false, List, [],
  ◌∷◌, ◌++◌, length, All, arith,
}
use urma_rs.Error.{Result, ok, err}
use urma_rs.Cli.Hex.{
  hex_digit, hex_enc, pair_val, hex_pairs, hex_dec, is_white, trim, trim_start, trim_end,
}

abbrev pub IsByte : ℕ → Type 0
IsByte b = b < 256

abbrev pub IsWhite : ℕ → Type 0
IsWhite c = is_white c ≡ true

abbrev IsDark : ℕ → Type 0
IsDark c = is_white c ≡ false

-- A test of all numbers below a bound.
all_below : ℕ → (ℕ → Bool) → Bool
all_below zero p = true
all_below (suc n) p = p n && all_below n p

all_below_lem : (n : ℕ) (p : ℕ → Bool) (x : ℕ) → all_below n p ≡ true → x < n → p x ≡ true
unfolding all_below
all_below_lem zero p x h lt = absurd (omega arith)
all_below_lem (suc n) p x h lt = ground (arith, all_below_lem n p x)

abbrev answers : Result ℕ → ℕ → Bool
answers (ok v) b = v == b
answers (err e) b = false

answers_lem : (r : Result ℕ) (b : ℕ) → answers r b ≡ true → r ≡ ok b
answers_lem (ok v) b h = ground arith
answers_lem (err e) b h = cc

abbrev byte_again : ℕ → Bool
byte_again b = answers (pair_val (hex_digit (b / 2 ^ 4)) (hex_digit (bit_and b 15))) b

byte_table : all_below 256 byte_again ≡ true
unfolding all_below pair_val hex_digit
byte_table = refl

pair_val-hex_digit :
    (b : ℕ) → b < 256 → pair_val (hex_digit (b / 2 ^ 4)) (hex_digit (bit_and b 15)) ≡ ok b
pair_val-hex_digit b h =
    answers_lem (pair_val (hex_digit (b / 2 ^ 4)) (hex_digit (bit_and b 15))) b
      (all_below_lem 256 byte_again b byte_table h)

abbrev dark_digits : ℕ → Bool
dark_digits b = elim (is_white (hex_digit (b / 2 ^ 4))) [
  | true ↦ false
  | false ↦ elim (is_white (hex_digit (bit_and b 15))) [ true ↦ false | false ↦ true ]
]

dark_table : all_below 256 dark_digits ≡ true
unfolding all_below hex_digit
dark_table = refl

hex_digit-IsDark :
    (b : ℕ) → b < 256 → IsDark (hex_digit (b / 2 ^ 4)) × IsDark (hex_digit (bit_and b 15))
hex_digit-IsDark b h = ground (arith, all_below_lem 256 dark_digits b dark_table h)

hex_enc-IsDark : (bytes : List ℕ) → All IsByte bytes → All IsDark (hex_enc bytes)
unfolding hex_enc
hex_enc-IsDark [] h = tt
hex_enc-IsDark (b ∷ bytes) h =
    let d = hex_digit-IsDark b h.0 in (d.0, (d.1, hex_enc-IsDark bytes h.1))

length-hex_enc : (bytes : List ℕ) → length (hex_enc bytes) ≡ 2 * length bytes
unfolding hex_enc
length-hex_enc [] = refl
length-hex_enc (b ∷ bytes) = omega (arith, length-hex_enc bytes)

hex_pairs-hex_enc : (bytes : List ℕ) → All IsByte bytes → hex_pairs (hex_enc bytes) ≡ ok bytes
unfolding hex_pairs hex_enc
hex_pairs-hex_enc [] h = refl
hex_pairs-hex_enc (b ∷ bytes) h =
    ground (arith, pair_val-hex_digit b h.0, hex_pairs-hex_enc bytes h.1)

trim_end-white : (ws : List ℕ) → All IsWhite ws → trim_end ws ≡ []
unfolding trim_end
trim_end-white [] h = refl
trim_end-white (c ∷ ws) h = ground (arith, trim_end-white ws h.1)

trim_end-append : (s ws : List ℕ) → All IsDark s → All IsWhite ws → trim_end (s ++ ws) ≡ s
unfolding trim_end
trim_end-append [] ws h w = trim_end-white ws w
trim_end-append (c ∷ []) ws h w = ground (arith, trim_end-white ws w)
trim_end-append (c ∷ d ∷ s) ws h w = ground (arith, trim_end-append (d ∷ s) ws h.1 w)

trim_start-append : (ws s : List ℕ) → All IsWhite ws → trim_start (ws ++ s) ≡ trim_start s
unfolding trim_start
trim_start-append [] s w = refl
trim_start-append (c ∷ ws) s w = ground (arith, trim_start-append ws s w.1)

trim_start-white : (ws : List ℕ) → All IsWhite ws → trim_start ws ≡ []
unfolding trim_start
trim_start-white [] w = refl
trim_start-white (c ∷ ws) w = ground (arith, trim_start-white ws w.1)

trim_pad :
    (before s after : List ℕ)
    → All IsWhite before
    → All IsDark s
    → All IsWhite after
    → trim (before ++ (s ++ after)) ≡ s
unfolding trim trim_start
trim_pad before [] after w h w' =
    ground (arith, trim_start-append before after w, trim_start-white after w')
trim_pad before (c ∷ s) after w h w' =
    ground (arith, trim_start-append before (c ∷ s ++ after) w, trim_end-append (c ∷ s) after h w')

-- Bytes that are written as hex digits are read back, whatever white space stands around the text.
pub hex_dec-hex_enc :
    (before bytes after : List ℕ)
    → All IsWhite before
    → All IsByte bytes
    → All IsWhite after
    → hex_dec (before ++ (hex_enc bytes ++ after)) ≡ ok bytes
unfolding hex_dec
hex_dec-hex_enc before bytes after w h w' = ground (
  arith,
  trim_pad before (hex_enc bytes) after w (hex_enc-IsDark bytes h) w',
  length-hex_enc bytes,
  hex_pairs-hex_enc bytes h,
)
