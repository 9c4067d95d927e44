-- ===== src/Bench/Ops/Windows.antt =====
-- Where the windows of the ops of a pass lie, and which of them ask for a record.
use urma_rs.Base.{
  ℕ, ◌+◌, ◌-◌, ◌*◌, ◌/◌, ◌%◌, min, max, ◌≤◌, ◌<◌, ltb, ◌≡◌, ◌≢◌, ◌⊎◌, inl, inr, false, Bool-cases,
  arith,
}
use native.Mathlib.Nat.{
  div-mul-le_self, mod-lt, mod-eq_of_lt, mul-le-mul_right, add-mul, div-lt_iff_lt-mul,
  le-div_iff_mul-le, mod-one, mul_comm, one-mul, div-add-mod',
}
use urma_rs.Bench.Ops.{bw_op_rank, bw_slot_off, is_signaled, resolve_cq_mod}

-- A window lies inside the buffer.
pub bw_slot_off-bound :
    (i size len : ℕ) → 0 < size → size ≤ len → bw_slot_off i size len + size ≤ len
unfolding bw_slot_off
bw_slot_off-bound i size len a b =
    let some_slot : 1 ≤ len / size = (le-div_iff_mul-le a).1 (omega arith) in
    let e : max (len / size) 1 ≡ len / size = omega arith in
    let below = mod-lt i {m = len / size} some_slot in
    rw e (
      omega (
        arith,
        mul-le-mul_right size below,
        add-mul (i % (len / size)) 1 size,
        div-mul-le_self len size,
      ))

mod-distinct : (i k s : ℕ) → i < k → k < i + s → i % s ≢ k % s
mod-distinct i k s a b e =
    let p = div-add-mod' i s in
    let q = div-add-mod' k s in
    elim (Bool-cases (ltb (i / s) (k / s))) [
      | inl h ↦
          let h' : i / s + 1 ≤ k / s = ground arith in
          omega (arith, p, q, e, b, mul-le-mul_right s h', add-mul (i / s) 1 s)
      | inr h ↦
          let h' : k / s ≤ i / s = ground arith in omega (arith, p, q, e, a, mul-le-mul_right s h')
    ]

-- Two multiples.
apart : (x y size : ℕ) → x ≢ y → (x * size + size ≤ y * size) ⊎ (y * size + size ≤ x * size)
apart x y size h = elim (Bool-cases (ltb x y)) [
  | inl e ↦
      let e' : x + 1 ≤ y = ground arith in
      inl (omega (arith, mul-le-mul_right size e', add-mul x 1 size))
  | inr e ↦
      let e' : y + 1 ≤ x = ground (arith, h) in
      inr (omega (arith, mul-le-mul_right size e', add-mul y 1 size))
]

-- Two ops fewer apart than the buffer has windows have windows that do not meet.
pub bw_slot_off-disjoint :
    (i k size len : ℕ)
    → i < k
    → k < i + len / size
    → (bw_slot_off i size len + size ≤ bw_slot_off k size len)
      ⊎ (bw_slot_off k size len + size ≤ bw_slot_off i size len)
unfolding bw_slot_off
bw_slot_off-disjoint i k size len a b =
    let e : max (len / size) 1 ≡ len / size = omega arith in
    rw e (apart (i % (len / size)) (k % (len / size)) size (mod-distinct i k (len / size) a b))

-- The first `depth` ops of a pass over `n` jetties in single turns ask for no record, where the
-- group is so large that the pipeline does not hold a whole one on any jetty.
pub is_signaled-none :
    (depth n m i : ℕ)
    → 0 < n
    → depth ≤ n * (m - 1)
    → i < depth
    → is_signaled (bw_op_rank i n 1) m ≡ false
unfolding is_signaled bw_op_rank
is_signaled-none depth n m i positive h k =
    let low : i / n < m - 1 = (div-lt_iff_lt-mul positive).1 (omega (arith, mul_comm n (m - 1))) in
    let e : i / (1 * n) * 1 + i % 1 ≡ i / n = rw (one-mul n, mod-one i) (omega arith) in
    let e' : (i / n + 1) % m ≡ i / n + 1 = mod-eq_of_lt (omega (arith, low)) in
    rw e (ground (arith, e'))

-- For a depth between 2 and 100, at least two jetties in single turns and the automatic moderation,
-- none of the ops that fill the pipeline at the start of a pass asks for a record.
pub resolve_cq_mod-stall :
    (depth n i : ℕ)
    → 2 ≤ depth
    → depth ≤ 100
    → 2 ≤ n
    → i < depth
    → is_signaled (bw_op_rank i n 1) (resolve_cq_mod 0 depth) ≡ false
unfolding resolve_cq_mod
resolve_cq_mod-stall depth n i a b c h =
    let e : min 100 depth ≡ depth = omega arith in
    rw e (
      is_signaled-none depth n depth i (omega arith) (omega (arith, mul-le-mul_right (depth - 1) c))
        h)
