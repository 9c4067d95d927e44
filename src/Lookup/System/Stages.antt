-- ===== src/Lookup/System/Stages.antt =====
-- How many clients have come how far.
use urma_rs.Base.{
  ℕ, zero, suc, ◌+◌, ◌≤◌, ◌<◌, leb, ◌==◌, List, [], ◌∷◌, some, ◌≡◌, refl, get_elem?, replicate,
  length, set, if◌then◌else◌, arith,
}

-- The number of clients that have come to stage `k` or further.
abbrev pub reached : ℕ → List ℕ → ℕ
reached k [] = 0
reached k (x ∷ xs) = (if leb k x then 1 else 0) + reached k xs

-- A client that takes one stage is one more at that stage, and at no other.
pub reached-set :
    (k : ℕ) (xs : List ℕ) (i x : ℕ)
    → get_elem? xs i ≡ some x
    → reached k (set xs i (suc x)) ≡ reached k xs + (if k == suc x then 1 else 0)
reached-set k [] i x e = cc
reached-set k (y ∷ xs) zero x e = ground arith
reached-set k (y ∷ xs) (suc i) x e = omega (arith, reached-set k xs i x e)

pub length-set {ℓ} : {A : Type ℓ} (xs : List A) (i : ℕ) (v : A) → length (set xs i v) ≡ length xs
length-set [] i v = refl
length-set (y ∷ xs) zero v = refl
length-set (y ∷ xs) (suc i) v = omega (arith, length-set xs i v)

pub reached-le : (k j : ℕ) (xs : List ℕ) → j ≤ k → reached k xs ≤ reached j xs
reached-le k j [] h = omega arith
reached-le k j (x ∷ xs) h = ground (arith, reached-le k j xs h)

pub reached-le-length : (k : ℕ) (xs : List ℕ) → reached k xs ≤ length xs
reached-le-length k [] = omega arith
reached-le-length k (x ∷ xs) = ground (arith, reached-le-length k xs)

-- Where all clients have come to a stage, each has.
pub reached_all :
    (k : ℕ) (xs : List ℕ) (i x : ℕ) → reached k xs ≡ length xs → get_elem? xs i ≡ some x → k ≤ x
reached_all k [] i x all e = cc
reached_all k (y ∷ xs) zero x all e = ground (arith, reached-le-length k xs)
reached_all k (y ∷ xs) (suc i) x all e =
    reached_all k xs i x (ground (arith, reached-le-length k xs)) e

pub reached_one :
    (k : ℕ) (xs : List ℕ) (i x : ℕ) → get_elem? xs i ≡ some x → k ≤ x → 0 < reached k xs
reached_one k [] i x e h = cc
reached_one k (y ∷ xs) zero x e h = ground arith
reached_one k (y ∷ xs) (suc i) x e h = omega (arith, reached_one k xs i x e h)

pub reached-replicate : (k n : ℕ) → 0 < k → reached k (replicate n 0) ≡ 0
reached-replicate k zero h = refl
reached-replicate k (suc n) h = ground (arith, reached-replicate k n h)
