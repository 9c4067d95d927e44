-- ===== src/Ffi/Flags/Bits.antt =====
-- `&` and `|` split a word at any bit: the high and the low parts are combined apart.
use Prim.Native.Nat.{digits, bitwise, bit_and-bitwise, bit_or-bitwise}
use native.Mathlib.Nat.{le_refl, pow-suc}
use urma_rs.Base.{
  ℕ, zero, suc, ◌+◌, ◌*◌, ◌/◌, ◌%◌, ◌^◌, ◌≤◌, ◌<◌, min, max, bit_and, bit_or, ◌≡◌, refl, ap, arith,
}

module _ (z : ℕ → ℕ) (f : ℕ → ℕ → ℕ) where
  -- The recursion on digits does not depend on its fuel, once that is enough.
  digits_enough : (n m a b : ℕ) → a ≤ n → a ≤ m → digits z f n a b ≡ digits z f m a b
  digits_enough zero zero a b p q = refl
  digits_enough zero (suc m) zero b p q = refl
  digits_enough zero (suc m) (suc a) b p q = absurd (omega arith)
  digits_enough (suc n) zero zero b p q = refl
  digits_enough (suc n) zero (suc a) b p q = absurd (omega arith)
  digits_enough (suc n) (suc m) zero b p q = refl
  digits_enough (suc n) (suc m) (suc a) b p q =
      rw (digits_enough n m (suc a / 2) (b / 2) (omega arith) (omega arith))

  bitwise_step :
      (a b : ℕ)
      → bitwise z f (suc a) b ≡ bitwise z f (suc a / 2) (b / 2) * 2 + f (suc a % 2) (b % 2)
  bitwise_step a b =
      omega (arith, digits_enough a (suc a / 2) (suc a / 2) (b / 2) (omega arith) (le_refl _))

and_step : (a b : ℕ) → bit_and a b ≡ bit_and (a / 2) (b / 2) * 2 + min (a % 2) (b % 2)
and_step zero b = simp bit_and-bitwise (omega arith)
and_step (suc a) b = simp bit_and-bitwise (bitwise_step (λ y. 0) min a b)

or_step : (a b : ℕ) → bit_or a b ≡ bit_or (a / 2) (b / 2) * 2 + max (a % 2) (b % 2)
or_step zero b = simp bit_or-bitwise (omega arith)
or_step (suc a) b = simp bit_or-bitwise (bitwise_step (λ y. y) max a b)

double_pow : (q k : ℕ) → q * 2 ^ suc k ≡ 2 * (q * 2 ^ k)
double_pow q k = omega (arith, ap (λ (t : ℕ). q * t) (pow-suc 2 k))

half :
    (q k x : ℕ) → ((q * 2 ^ suc k + x) / 2 ≡ q * 2 ^ k + x / 2) × ((q * 2 ^ suc k + x) % 2 ≡ x % 2)
half q k x = (omega (arith, double_pow q k), omega (arith, double_pow q k))

with_nothing : (q : ℕ) → q * 2 ^ 0 + 0 ≡ q
with_nothing q = omega arith

-- `&` on words written as `high * 2 ^ k + low`.
pub bit_and_split :
    (k a x b y : ℕ)
    → x < 2 ^ k
    → y < 2 ^ k
    → bit_and (a * 2 ^ k + x) (b * 2 ^ k + y) ≡ bit_and a b * 2 ^ k + bit_and x y
bit_and_split zero a zero b zero p q =
    rw (with_nothing a, with_nothing b, with_nothing (bit_and a b)) refl
bit_and_split zero a zero b (suc y) p q = absurd (omega arith)
bit_and_split zero a (suc x) b y p q = absurd (omega arith)
bit_and_split (suc k) a x b y p q = ground (
  arith,
  and_step (a * 2 ^ suc k + x) (b * 2 ^ suc k + y),
  and_step x y,
  double_pow a k,
  double_pow b k,
  double_pow (bit_and a b) k,
  pow-suc 2 k,
  bit_and_split k a (x / 2) b (y / 2) (omega (arith, pow-suc 2 k)) (omega (arith, pow-suc 2 k)),
  half a k x,
  half b k y,
)

-- `|` on words written as `high * 2 ^ k + low`.
pub bit_or_split :
    (k a x b y : ℕ)
    → x < 2 ^ k
    → y < 2 ^ k
    → bit_or (a * 2 ^ k + x) (b * 2 ^ k + y) ≡ bit_or a b * 2 ^ k + bit_or x y
bit_or_split zero a zero b zero p q =
    rw (with_nothing a, with_nothing b, with_nothing (bit_or a b)) refl
bit_or_split zero a zero b (suc y) p q = absurd (omega arith)
bit_or_split zero a (suc x) b y p q = absurd (omega arith)
bit_or_split (suc k) a x b y p q = ground (
  arith,
  or_step (a * 2 ^ suc k + x) (b * 2 ^ suc k + y),
  or_step x y,
  double_pow a k,
  double_pow b k,
  double_pow (bit_or a b) k,
  pow-suc 2 k,
  bit_or_split k a (x / 2) b (y / 2) (omega (arith, pow-suc 2 k)) (omega (arith, pow-suc 2 k)),
  half a k x,
  half b k y,
)

-- A word of `k` bits under `&` with no bit, and under `|` with none on either side.
pub bit_and-zero : (k a : ℕ) → a < 2 ^ k → bit_and a 0 ≡ 0
bit_and-zero zero zero h = refl
bit_and-zero zero (suc a) h = absurd (omega arith)
bit_and-zero (suc k) a h =
    omega (arith, and_step a 0, pow-suc 2 k, bit_and-zero k (a / 2) (omega (arith, pow-suc 2 k)))

pub bit_or-zero : (k a : ℕ) → a < 2 ^ k → bit_or a 0 ≡ a
bit_or-zero zero zero h = refl
bit_or-zero zero (suc a) h = absurd (omega arith)
bit_or-zero (suc k) a h =
    omega (arith, or_step a 0, pow-suc 2 k, bit_or-zero k (a / 2) (omega (arith, pow-suc 2 k)))

pub zero-bit_or : (k a : ℕ) → a < 2 ^ k → bit_or 0 a ≡ a
zero-bit_or zero zero h = refl
zero-bit_or zero (suc a) h = absurd (omega arith)
zero-bit_or (suc k) a h =
    omega (arith, or_step 0 a, pow-suc 2 k, zero-bit_or k (a / 2) (omega (arith, pow-suc 2 k)))

-- A word of `k` bits under `&` with `k` ones; the ones are a variable with an equation.
pub bit_and_ones : (k a m : ℕ) → a < 2 ^ k → m + 1 ≡ 2 ^ k → bit_and a m ≡ a
bit_and_ones zero zero m h e = ground (arith, bit_and-bitwise 0 m)
bit_and_ones zero (suc a) m h e = absurd (omega arith)
bit_and_ones (suc k) a m h e =
    let p : 2 ^ suc k ≡ 2 * 2 ^ k = omega (arith, pow-suc 2 k) in
    omega (arith, and_step a m, bit_and_ones k (a / 2) (m / 2) (omega arith) (omega arith))
