-- ===== src/Bench/Limits/Laws.antt =====
-- What the limits of a sweep give.
use urma_rs.Base.{
  ℕ, ◌*◌, ◌^◌, ◌<◌, ◌≤◌, ltb, leb, ◌≡◌, ◌≢◌, ◌↔◌, ◌⊎◌, List, [], ◌∷◌, All, length, Bool-cases, inl,
  inr, arith,
}
use native.Mathlib.Nat.{mul-le-mul_left}
use urma_rs.Error.{ok, Ensures}
use urma_rs.Urma.Cap.{DeviceCap}
use urma_rs.Bench.Ops.{BwOp}
use urma_rs.Bench.Limits.{
  OneSidedArgs, check_args, size_limit, retain, some_left, landing_len, cap_of, op_cap,
}

-- What the arguments satisfy when they pass.
pub record IsRun (a : OneSidedArgs) : Type 0 where
  pub some_depth : 0 < a.depth
  pub some_jetties : 0 < a.jetties
  pub few_jetties : a.jetties ≤ 64
  pub some_list : 0 < a.post_list
  pub short_list : a.post_list ≤ a.depth
  pub latency :
      a.depth ≡ 1 → (a.duration ≡ 0) × (a.cq_mod ≡ 0) × (a.jetties ≡ 1) × (a.post_list ≡ 1)

-- Arguments that pass have between 1 and 64 jetties and a turn between 1 and the depth, and with
-- depth 1 no option of the bandwidth mode.
pub check_args-IsRun : (a : OneSidedArgs) → check_args a ≡ ok tt → IsRun a
unfolding check_args
check_args-IsRun a e = record {
  some_depth = ground arith;
  some_jetties = ground arith;
  few_jetties = ground arith;
  some_list = ground arith;
  short_list = ground arith;
  latency = λ d. (ground arith, ground arith, ground arith, ground arith);
}

-- What a size that is left satisfies.
abbrev pub IsWithin : BwOp → DeviceCap → ℕ → ℕ → Type 0
IsWithin BwOp.read cap seg_len size =
    (size ≤ seg_len) × (cap.max_read_size ≢ 0 → size ≤ cap.max_read_size)
IsWithin BwOp.write cap seg_len size =
    (size ≤ seg_len)
    × (cap.max_read_size ≢ 0 → size ≤ cap.max_read_size)
    × (cap.max_write_size ≢ 0 → size ≤ cap.max_write_size)

size_limit-IsWithin :
    (op : BwOp) (cap : DeviceCap) (seg_len size : ℕ)
    → size ≤ size_limit op cap seg_len
    → IsWithin op cap seg_len size
unfolding size_limit op_cap
size_limit-IsWithin BwOp.read c seg_len size h = (ground arith, λ k. ground arith)
size_limit-IsWithin BwOp.write c seg_len size h =
    (ground arith, (λ k. ground arith), λ k. ground arith)

retain-IsWithin :
    (op : BwOp) (c : DeviceCap) (seg_len : ℕ) (sizes : List ℕ)
    → All (IsWithin op c seg_len) (retain (size_limit op c seg_len) sizes)
unfolding retain
retain-IsWithin op c seg_len [] = tt
retain-IsWithin op c seg_len (s ∷ sizes) = elim (Bool-cases (leb s (size_limit op c seg_len))) [
  | inl e ↦
      rw e (size_limit-IsWithin op c seg_len s (ground arith), retain-IsWithin op c seg_len sizes)
  | inr e ↦ rw e (retain-IsWithin op c seg_len sizes)
]

-- The sizes that are left are at least one, and fit the peer's segment and each ceiling that the
-- device reports for the op; a WRITE keeps to that of the READ too.
pub some_left-IsWithin :
    (op : BwOp) (c : DeviceCap) (seg_len : ℕ) (sizes : List ℕ)
    → Ensures
        (λ left. (0 < length left) × All (IsWithin op c seg_len) left)
        (some_left (retain (size_limit op c seg_len) sizes))
unfolding some_left
some_left-IsWithin op c seg_len sizes =
    go (retain (size_limit op c seg_len) sizes) (retain-IsWithin op c seg_len sizes)
  where
    go :
        (left : List ℕ)
        → All (IsWithin op c seg_len) left
        → Ensures (λ l. (0 < length l) × All (IsWithin op c seg_len) l) (some_left left)
    go [] h = tt
    go (s ∷ left) h = (omega arith, h)

-- For a size below 2^32, the buffer of a sweep has room for it exactly in latency mode, or where it
-- does not exceed the cap of the buffer.
pub landing_len-room :
    (a : OneSidedArgs) (size : ℕ)
    → size < 2 ^ 32
    → (size ≤ landing_len a size) ↔ ((a.depth ≤ 1) ⊎ (size ≤ cap_of a))
unfolding landing_len
landing_len-room a size h = elim (Bool-cases (ltb 1 a.depth)) [
  | inl e ↦
      let deep : 2 ≤ a.depth = ground arith in
      let m : size * 2 ≤ size * a.depth = mul-le-mul_left size deep in
      rw e (
        λ k. inr (omega (arith, k)),
        λ k. elim k [ inl l ↦ absurd (omega (arith, l, deep)) | inr l ↦ omega (arith, l, m, h) ],
      )
  | inr e ↦ rw e (λ k. inl (ground arith), λ k. omega arith)
]
