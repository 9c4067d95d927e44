-- ===== src/Bench/Ops/Rank.antt =====
-- The rank of an op in the stream of its jetty, and where its windows lie.
use urma_rs.Base.{
  ℕ, zero, suc, ◌+◌, ◌*◌, ◌/◌, ◌%◌, ◌≤◌, ◌<◌, ltb, leb, ◌==◌, ◌≡◌, refl, ap, ◌∙◌, if◌then◌else◌,
  Bool-cases, inl, inr, arith,
}
use native.Mathlib.Nat.{add-mul, mul-add-div_right, div-add-mod', div-eq_of_lt}
use urma_rs.Bench.Ops.{bw_op_jetty, bw_op_rank}

-- How many of the first `m` ops are on jetty `j`.
unfoldable pub posted_on : ℕ → ℕ → ℕ → ℕ → ℕ
posted_on n list j zero = 0
posted_on n list j (suc m) = posted_on n list j m + (if bw_op_jetty m n list == j then 1 else 0)

-- A number is cut into digits in one way.
pub div-digits : (x y m : ℕ) → y < m → (x * m + y) / m ≡ x
div-digits x y m h =
    let positive : 0 < m = omega arith in
    let none_left : y / m ≡ 0 = div-eq_of_lt h in omega (arith, mul-add-div_right positive x y)

pub mod-digits : (x y m : ℕ) → y < m → (x * m + y) % m ≡ y
mod-digits x y m h =
    let e = div-digits x y m h in omega (arith, div-add-mod' (x * m + y) m, ap (λ (t : ℕ). t * m) e)

-- The part of a round that jetty `j` has, where jetty `c` has taken `o` ops of it.
abbrev share : ℕ → ℕ → ℕ → ℕ → ℕ
share list j c o = if ltb j c then list else if j == c then o else 0

mul-le_mul : (a b k : ℕ) → a ≤ b → a * k ≤ b * k
mul-le_mul a b zero h = omega arith
mul-le_mul a b (suc k) h = omega (arith, mul-le_mul a b k h)

regroup : (q n c l : ℕ) → (q * n + c) * l ≡ q * (l * n) + c * l
regroup q n c zero = omega arith
regroup q n c (suc l) = omega (arith, regroup q n c l)

module _ (n list : ℕ) where
  -- Op `i` stands in round `q`, at the place `o` of the turn of jetty `c`.
  record Place (i : ℕ) : Type 0 where
    q : ℕ
    c : ℕ
    o : ℕ
    at : i ≡ (q * n + c) * list + o
    turn : o < list
    lane : c < n
    count : (j : ℕ) → j < n → posted_on n list j i ≡ q * list + share list j c o

  module _ {i : ℕ} (s : Place i) where
    jetty_at : bw_op_jetty i n list ≡ s.c
    unfolding bw_op_jetty
    jetty_at =
        let e = ap (λ (t : ℕ). t / list) s.at ∙ div-digits (s.q * n + s.c) s.o list s.turn in
        ap (λ (t : ℕ). t % n) e ∙ mod-digits s.q s.c n s.lane

    rank_at : bw_op_rank i n list ≡ s.q * list + s.o
    unfolding bw_op_rank
    rank_at =
        let small : s.c * list + s.o < list * n =
          omega (arith, mul-le_mul (suc s.c) n list s.lane, s.turn) in
        let e : i ≡ s.q * (list * n) + (s.c * list + s.o) =
          omega (arith, s.at, regroup s.q n s.c list) in
        let d =
          ap (λ (t : ℕ). t / (list * n)) e ∙ div-digits s.q (s.c * list + s.o) (list * n) small in
        let m = ap (λ (t : ℕ). t % list) s.at ∙ mod-digits (s.q * n + s.c) s.o list s.turn in
        rw (d, m) refl

  first : 0 < n → 0 < list → Place 0
  unfolding posted_on
  first a b = record {
    q = 0;
    c = 0;
    o = 0;
    at = omega arith;
    turn = b;
    lane = a;
    count = λ j h. ground arith;
  }

  -- The op behind op `i`: in the same turn, in that of the next jetty, or in the next round.
  module _ {i : ℕ} (s : Place i) where
    same_turn : suc s.o < list → Place (suc i)
    unfolding posted_on
    same_turn h = record {
      q = s.q;
      c = s.c;
      o = suc s.o;
      at = omega (arith, s.at);
      turn = h;
      lane = s.lane;
      count = λ j k. ground (arith, s.count j k, jetty_at s);
    }

    next_turn : suc s.o ≡ list → suc s.c < n → Place (suc i)
    unfolding posted_on
    next_turn h k = record {
      q = s.q;
      c = suc s.c;
      o = 0;
      at = omega (arith, s.at, add-mul (s.q * n + s.c) 1 list);
      turn = omega (arith, s.turn);
      lane = k;
      count = λ j l. ground (arith, s.count j l, jetty_at s);
    }

    next_round : suc s.o ≡ list → suc s.c ≡ n → Place (suc i)
    unfolding posted_on
    next_round h k = record {
      q = suc s.q;
      c = 0;
      o = 0;
      at =
          omega
            (arith, s.at, add-mul (s.q * n + s.c) 1 list, k, ap (λ (t : ℕ). t * list) (round_of k));
      turn = omega (arith, s.turn);
      lane = omega (arith, s.lane);
      count = λ j l. ground (arith, s.count j l, jetty_at s, add-mul s.q 1 list);
    }
      where
        round_of : suc s.c ≡ n → s.q * n + suc s.c ≡ suc s.q * n + 0
        round_of k = omega (arith, k, add-mul s.q 1 n)

    next : Place (suc i)
    next = elim (Bool-cases (ltb (suc s.o) list)) [
      | inl e ↦ same_turn (ground arith)
      | inr e ↦ elim (Bool-cases (ltb (suc s.c) n)) [
        | inl e' ↦ next_turn (ground (arith, s.turn)) (ground arith)
        | inr e' ↦ next_round (ground (arith, s.turn)) (ground (arith, s.lane))
      ]
    ]

  place : 0 < n → 0 < list → (i : ℕ) → Place i
  place a b zero = first a b
  place a b (suc i) = next (place a b i)

  -- For at least one jetty and turns of at least one op, the rank of an op is the number of the ops
  -- before it that are on the same jetty.
  pub bw_op_rank-posted_on :
      0 < n → 0 < list → (i : ℕ) → bw_op_rank i n list ≡ posted_on n list (bw_op_jetty i n list) i
  bw_op_rank-posted_on a b i =
      let s = place a b i in ground (arith, rank_at s, jetty_at s, s.count s.c s.lane)

  pub bw_op_jetty-bound : 0 < n → 0 < list → (i : ℕ) → bw_op_jetty i n list < n
  bw_op_jetty-bound a b i = let s = place a b i in ground (arith, jetty_at s, s.lane)

  -- Within a turn the jetty stays.
  pub bw_op_jetty-turn :
      (i : ℕ)
      → i % list + 1 < list
      → (bw_op_jetty (suc i) n list ≡ bw_op_jetty i n list) × (suc i % list ≡ i % list + 1)
  unfolding bw_op_jetty
  bw_op_jetty-turn i h =
      let e : suc i ≡ i / list * list + (i % list + 1) = omega (arith, div-add-mod' i list) in
      let d = ap (λ (t : ℕ). t / list) e ∙ div-digits (i / list) (i % list + 1) list h in
      (
        ap (λ (t : ℕ). t % n) d,
        ap (λ (t : ℕ). t % list) e ∙ mod-digits (i / list) (i % list + 1) list h,
      )

-- More ops, and no fewer of them on a jetty.
pub posted_on_mono : (n list j m k : ℕ) → m ≤ k → posted_on n list j m ≤ posted_on n list j k
unfolding posted_on
posted_on_mono n list j m zero h = let e : m ≡ 0 = omega (arith, h) in rw e (omega arith)
posted_on_mono n list j m (suc k) h = elim (Bool-cases (leb m k)) [
  | inl e ↦ ground (arith, posted_on_mono n list j m k (ground arith))
  | inr e ↦ let e' : m ≡ suc k = ground (arith, h) in rw e' (omega arith)
]

-- The op of a given rank on a jetty.
pub op_of_rank :
    (n list j r k : ℕ)
    → r < posted_on n list j k
    → (i : ℕ) × (i < k) × (bw_op_jetty i n list ≡ j) × (posted_on n list j i ≡ r)
unfolding posted_on
op_of_rank n list j r zero h = absurd (omega (arith, h))
op_of_rank n list j r (suc k) h = elim (Bool-cases (ltb r (posted_on n list j k))) [
  | inl e ↦ let (i, l, p, q) = op_of_rank n list j r k (ground arith) in (i, omega (arith, l), p, q)
  | inr e ↦ (k, omega arith, ground (arith, h), ground (arith, h))
]
