-- ===== src/Ffi/Flags/Fields.antt =====
-- A bit field inside a word: the word is `(high * 2 ^ n + field) * 2 ^ s + low`, for a field of
-- `n` bits from bit `s` and `k` bits above it.
use urma_rs.Base.{ℕ, ◌+◌, ◌*◌, ◌^◌, ◌<◌, bit_and, bit_or, ◌≡◌, arith}
use urma_rs.Ffi.Flags.Bits.{
  bit_and_split, bit_or_split, bit_and-zero, bit_or-zero, zero-bit_or, bit_and_ones,
}

module _ (s n k : ℕ) (high field low : ℕ) (h : high < 2 ^ k) (f : field < 2 ^ n)
    (l : low < 2 ^ s) where
  abbrev word : ℕ → ℕ → ℕ → ℕ
  word a b c = (a * 2 ^ n + b) * 2 ^ s + c

  none_fit : 0 < 2 ^ n × 0 < 2 ^ s
  none_fit = (omega arith, omega arith)

  -- `value & mask` keeps the field alone.
  pub bit_and_field :
      (m : ℕ) → m + 1 ≡ 2 ^ n → bit_and (word high field low) (word 0 m 0) ≡ word 0 field 0
  bit_and_field m e = rw (
    bit_and_split s (high * 2 ^ n + field) low (0 * 2 ^ n + m) 0 l none_fit.1,
    bit_and_split n high field 0 m f (omega arith),
    bit_and-zero k high h,
    bit_and_ones n field m f e,
    bit_and-zero s low l,
  )

  -- `value & !mask` clears the field.
  pub bit_and_clear :
      (a c : ℕ)
      → a + 1 ≡ 2 ^ k
      → c + 1 ≡ 2 ^ s
      → bit_and (word high field low) (word a 0 c) ≡ word high 0 low
  bit_and_clear a c p q = rw (
    bit_and_split s (high * 2 ^ n + field) low (a * 2 ^ n + 0) c l (omega arith),
    bit_and_split n high field a 0 f none_fit.0,
    bit_and_ones k high a h p,
    bit_and-zero n field f,
    bit_and_ones s low c l q,
  )

  -- `value | (field << s)` on a word whose field is clear.
  pub bit_or_field : bit_or (word high 0 low) (word 0 field 0) ≡ word high field low
  bit_or_field = rw (
    bit_or_split s (high * 2 ^ n + 0) low (0 * 2 ^ n + field) 0 l none_fit.1,
    bit_or_split n high 0 0 field none_fit.0 f,
    bit_or-zero k high h,
    zero-bit_or n field f,
    bit_or-zero s low l,
  )
