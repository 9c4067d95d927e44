-- ===== src/Lookup/Records/Memory.antt =====
-- Writes to memory and reads of it.
use urma_rs.Base.{
  ℕ, zero, suc, ◌+◌, ◌-◌, ◌≤◌, ◌≡◌, refl, ap, sym, ◌∙◌, List, [], ◌∷◌, ◌++◌, length, replicate,
  arith,
}
use urma_rs.Lookup.Records.{copy_at, slice}

pub length-copy_at : (off : ℕ) (bs buf : List ℕ) → length (copy_at off bs buf) ≡ length buf
unfolding copy_at
length-copy_at zero [] buf = refl
length-copy_at zero (b ∷ bs) [] = refl
length-copy_at zero (b ∷ bs) (c ∷ buf) = omega (arith, length-copy_at zero bs buf)
length-copy_at (suc off) bs [] = refl
length-copy_at (suc off) bs (c ∷ buf) = omega (arith, length-copy_at off bs buf)

-- What was written is read back.
pub slice-copy_at :
    (off : ℕ) (bs buf : List ℕ)
    → off + length bs ≤ length buf
    → slice off (length bs) (copy_at off bs buf) ≡ bs
unfolding copy_at
slice-copy_at zero [] buf h = refl
slice-copy_at zero (b ∷ bs) [] h = absurd (omega arith)
slice-copy_at zero (b ∷ bs) (c ∷ buf) h = rw (slice-copy_at zero bs buf (omega arith))
slice-copy_at (suc off) bs [] h = absurd (omega arith)
slice-copy_at (suc off) bs (c ∷ buf) h = slice-copy_at off bs buf (omega arith)

copy_at-nil : (off : ℕ) (bs : List ℕ) → copy_at off bs [] ≡ []
unfolding copy_at
copy_at-nil zero [] = refl
copy_at-nil zero (b ∷ bs) = refl
copy_at-nil (suc off) bs = refl

-- A range in front of the write, or behind it, reads as before.
pub slice-copy_at_below :
    (o n off : ℕ) (bs buf : List ℕ) → o + n ≤ off → slice o n (copy_at off bs buf) ≡ slice o n buf
unfolding copy_at
slice-copy_at_below o n off bs [] h = ap (slice o n) (copy_at-nil off bs)
slice-copy_at_below zero zero off bs (c ∷ buf) h = refl
slice-copy_at_below zero (suc n) zero bs (c ∷ buf) h = absurd (omega arith)
slice-copy_at_below zero (suc n) (suc off) bs (c ∷ buf) h =
    ap (◌∷◌ c) (slice-copy_at_below zero n off bs buf (omega arith))
slice-copy_at_below (suc o) n zero bs (c ∷ buf) h = absurd (omega arith)
slice-copy_at_below (suc o) n (suc off) bs (c ∷ buf) h =
    slice-copy_at_below o n off bs buf (omega arith)

pub slice-copy_at_above :
    (o n off : ℕ) (bs buf : List ℕ)
    → off + length bs ≤ o
    → slice o n (copy_at off bs buf) ≡ slice o n buf
unfolding copy_at
slice-copy_at_above o n zero [] buf h = refl
slice-copy_at_above o n zero (b ∷ bs) [] h = refl
slice-copy_at_above zero n zero (b ∷ bs) (c ∷ buf) h = absurd (omega arith)
slice-copy_at_above (suc o) n zero (b ∷ bs) (c ∷ buf) h =
    slice-copy_at_above o n zero bs buf (omega arith)
slice-copy_at_above o n (suc off) bs [] h = refl
slice-copy_at_above zero n (suc off) bs (c ∷ buf) h = absurd (omega arith)
slice-copy_at_above (suc o) n (suc off) bs (c ∷ buf) h =
    slice-copy_at_above o n off bs buf (omega arith)

-- A copy over a longer run of zeros is one copy of the padded bytes.
pub copy_at-zeros :
    (off k : ℕ) (bs buf : List ℕ)
    → length bs ≤ k
    → copy_at off bs (copy_at off (replicate k 0) buf)
      ≡ copy_at off (bs ++ replicate (k - length bs) 0) buf
unfolding copy_at
copy_at-zeros zero zero [] buf h = refl
copy_at-zeros zero zero (b ∷ bs) buf h = absurd (omega arith)
copy_at-zeros zero (suc k) [] buf h =
    let e : suc k - 0 ≡ suc k = omega arith in
    ap (λ (n : ℕ). copy_at 0 (replicate {A = ℕ} n 0) buf) (sym e)
copy_at-zeros zero (suc k) (b ∷ bs) [] h = refl
copy_at-zeros zero (suc k) (b ∷ bs) (c ∷ buf) h =
    let e : suc k - suc (length bs) ≡ k - length bs = omega arith in
    ap (◌∷◌ b) (copy_at-zeros zero k bs buf (omega arith))
    ∙ ap (λ (n : ℕ). b ∷ copy_at 0 (bs ++ replicate {A = ℕ} n 0) buf) (sym e)
copy_at-zeros (suc off) k bs [] h = refl
copy_at-zeros (suc off) k bs (c ∷ buf) h = ap (◌∷◌ c) (copy_at-zeros off k bs buf h)
