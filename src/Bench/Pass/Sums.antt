-- ===== src/Bench/Pass/Sums.antt =====
-- Sums over the jetties.
use urma_rs.Base.{
  ℕ, zero, suc, ◌+◌, ◌-◌, ◌*◌, ltb, ◌<◌, ◌≤◌, ◌==◌, ◌≡◌, refl, if◌then◌else◌, Bool-cases, inl, inr,
  arith,
}
use native.Mathlib.Nat.{add-mul}
use urma_rs.Bench.Ops.{bw_op_jetty}
use urma_rs.Bench.Ops.Rank.{posted_on, bw_op_jetty-bound}
use urma_rs.Bench.Pass.{set}

unfoldable pub sum : ℕ → (ℕ → ℕ) → ℕ
sum zero f = 0
sum (suc n) f = sum n f + f n

sum-set-out : (n j v : ℕ) (f : ℕ → ℕ) → n ≤ j → sum n (set f j v) ≡ sum n f
unfolding sum
sum-set-out zero j v f h = refl
sum-set-out (suc n) j v f h = ground (arith, sum-set-out n j v f (omega (arith, h)))

pub sum-set : (n j v : ℕ) (f : ℕ → ℕ) → j < n → sum n (set f j v) + f j ≡ sum n f + v
unfolding sum
sum-set zero j v f h = omega (arith, h)
sum-set (suc n) j v f h = elim (Bool-cases (n == j)) [
  | inl e ↦
      let e' : n ≡ j = ground arith in ground (arith, e', sum-set-out n j v f (omega (arith, e')))
  | inr e ↦ let h' : j < n = ground arith in ground (arith, sum-set n j v f h')
]

pub sum-le : (n : ℕ) (f g : ℕ → ℕ) → ((j : ℕ) → j < n → f j ≤ g j) → sum n f ≤ sum n g
unfolding sum
sum-le zero f g h = omega arith
sum-le (suc n) f g h =
    omega (arith, h n (omega arith), sum-le n f g (λ j k. h j (omega (arith, k))))

-- Where no summand is larger and the sums are equal, all summands are.
pub sum-exact :
    (n : ℕ) (f g : ℕ → ℕ)
    → ((j : ℕ) → j < n → f j ≤ g j)
    → sum n f ≡ sum n g
    → (j : ℕ) → j < n
    → f j ≡ g j
unfolding sum
sum-exact zero f g h e j k = omega (arith, k)
sum-exact (suc n) f g h e j k =
    let below : (i : ℕ) → i < n → f i ≤ g i = λ i l. h i (omega (arith, l)) in
    let last = h n (omega arith) in
    let rest = sum-le n f g below in
    elim (Bool-cases (j == n)) [
      | inl d ↦ let d' : j ≡ n = ground arith in rw d' (omega (arith, e, last, rest))
      | inr d ↦ sum-exact n f g below (omega (arith, e, last, rest)) j (ground arith)
    ]

-- Every op is on one of the jetties.
sum-indicator :
    (n k : ℕ) (f : ℕ → ℕ)
    → sum n (λ j. f j + (if k == j then 1 else 0)) ≡ sum n f + (if ltb k n then 1 else 0)
unfolding sum
sum-indicator zero k f = ground arith
sum-indicator (suc n) k f = ground (arith, sum-indicator n k f)

pub sum-zero : (n : ℕ) → sum n (λ j. 0) ≡ 0
unfolding sum
sum-zero zero = refl
sum-zero (suc n) = omega (arith, sum-zero n)

pub sum-posted_on : (n list m : ℕ) → 0 < n → 0 < list → sum n (λ j. posted_on n list j m) ≡ m
unfolding posted_on
sum-posted_on n list zero a b = sum-zero n
sum-posted_on n list (suc m) a b = ground (
  arith,
  sum-indicator n (bw_op_jetty m n list) (λ j. posted_on n list j m),
  sum-posted_on n list m a b,
  bw_op_jetty-bound n list a b m,
)

-- A sum beyond `n * k` has a summand beyond `k`.
pub sum-pigeon : (n k : ℕ) (f : ℕ → ℕ) → n * k < sum n f → (j : ℕ) × (j < n) × (k < f j)
unfolding sum
sum-pigeon zero k f h = absurd (omega (arith, h))
sum-pigeon (suc n) k f h = elim (Bool-cases (ltb k (f n))) [
  | inl e ↦ (n, omega arith, ground arith)
  | inr e ↦
      let big : f n ≤ k = ground arith in
      let (j, a, b) = sum-pigeon n k f (omega (arith, h, big, add-mul n 1 k)) in
      (j, omega (arith, a), b)
]

pub sum-ext : (n : ℕ) (f g : ℕ → ℕ) → ((j : ℕ) → j < n → f j ≡ g j) → sum n f ≡ sum n g
unfolding sum
sum-ext zero f g h = refl
sum-ext (suc n) f g h =
    omega (arith, h n (omega arith), sum-ext n f g (λ j k. h j (omega (arith, k))))

pub sum-minus :
    (n : ℕ) (f g : ℕ → ℕ)
    → ((j : ℕ) → j < n → f j ≤ g j)
    → sum n (λ j. g j - f j) + sum n f ≡ sum n g
unfolding sum
sum-minus zero f g h = omega arith
sum-minus (suc n) f g h =
    omega (arith, h n (omega arith), sum-minus n f g (λ j k. h j (omega (arith, k))))
