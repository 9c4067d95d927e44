-- ===== src/Urma/Peer/Layout.antt =====
-- The bytes of the blobs that an import hands over.
use urma_rs.Base.{
  length-replicate, length-take, ℕ, zero, suc, ◌+◌, ◌-◌, ◌*◌, ◌/◌, ◌%◌, ◌^◌, ◌≤◌, ◌<◌, ◌≡◌, refl,
  String, List, [], ◌∷◌, ◌++◌, length, take, drop, replicate, length-append, arith, ap, sym, ◌∙◌,
}
use urma_rs.Error.{ok}
use urma_rs.Urma.Peer.{aligned_blob, set_tp_type, le32}

-- The u32 that four bytes in memory make, least significant byte first.
abbrev pub read_le32 : List ℕ → ℕ
read_le32 (a ∷ b ∷ c ∷ d ∷ rest) = a + b * 2 ^ 8 + c * 2 ^ 16 + d * 2 ^ 24
read_le32 bytes = 0

take-append {ℓ} : {A : Type ℓ} (xs ys : List A) → take (length xs) (xs ++ ys) ≡ xs
take-append [] [] = refl
take-append [] (y ∷ ys) = refl
take-append (x ∷ xs) ys = rw (take-append xs ys)

take-take_append {ℓ} :
    {A : Type ℓ} (n : ℕ) (xs ys : List A) → n ≤ length xs → take n (take n xs ++ ys) ≡ take n xs
take-take_append zero xs [] h = refl
take-take_append zero xs (y ∷ ys) h = refl
take-take_append (suc n) [] ys h = absurd (omega arith)
take-take_append (suc n) (x ∷ xs) ys h = rw (take-take_append n xs ys (omega arith))

drop-take_append {ℓ} :
    {A : Type ℓ} (n : ℕ) (xs ys : List A) → n ≤ length xs → drop n (take n xs ++ ys) ≡ ys
drop-take_append zero xs [] h = refl
drop-take_append zero xs (y ∷ ys) h = refl
drop-take_append (suc n) [] ys h = absurd (omega arith)
drop-take_append (suc n) (x ∷ xs) ys h = drop-take_append n xs ys (omega arith)

length-drop {ℓ} : {A : Type ℓ} (n : ℕ) (xs : List A) → length (drop n xs) ≡ length xs - n
length-drop zero [] = refl
length-drop zero (x ∷ xs) = omega arith
length-drop (suc n) [] = omega arith
length-drop (suc n) (x ∷ xs) = omega (arith, length-drop n xs)

drop-drop {ℓ} : {A : Type ℓ} (n k : ℕ) (xs : List A) → drop k (drop n xs) ≡ drop (n + k) xs
drop-drop zero k xs = let e : 0 + k ≡ k = omega arith in rw e
drop-drop (suc n) zero [] = let e : suc n + 0 ≡ suc (n + 0) = omega arith in rw e
drop-drop (suc n) (suc k) [] = let e : suc n + suc k ≡ suc (n + suc k) = omega arith in rw e
drop-drop (suc n) k (x ∷ xs) =
    let e : suc n + k ≡ suc (n + k) = omega arith in rw e (drop-drop n k xs)

-- A blob that aligned_blob accepts has at least the required size and is passed on in whole 8-byte
-- words: the given bytes and fewer than eight more.
pub aligned_blob-ok :
    (bytes : List ℕ) (min : ℕ) (what : String) (blob : List ℕ)
    → aligned_blob bytes min what ≡ ok blob
    → (min ≤ length bytes)
      × (take (length bytes) blob ≡ bytes)
      × (length blob % 8 ≡ 0)
      × (length blob < length bytes + 8)
unfolding aligned_blob
aligned_blob-ok bytes min what blob e =
    let pad = (length bytes + 7) / 8 * 8 - length bytes in
    let n = length-append bytes (replicate {A = ℕ} pad 0) in
    let k = length-replicate {A = ℕ} pad 0 in
    (
      ground arith,
      ground (arith, take-append bytes (replicate pad 0)),
      ground (arith, n, k),
      ground (arith, n, k),
    )

-- In a blob that reaches past the field, set_tp_type overwrites the field with the given u32 and
-- leaves all other bytes at their places.
pub set_tp_type-field :
    (rj : List ℕ) (tp : ℕ)
    → 44 ≤ length rj
    → tp < 2 ^ 32
    → let out = set_tp_type rj tp in
      (read_le32 (drop 40 out) ≡ tp)
      × (take 40 out ≡ take 40 rj)
      × (drop 44 out ≡ drop 44 rj)
      × (length out ≡ length rj)
unfolding set_tp_type
set_tp_type-field rj tp long small =
    let rest = le32 tp ++ drop 44 rj in
    let at : drop 40 (take 40 rj ++ rest) ≡ rest = drop-take_append 40 rj rest (omega arith) in
    (
      ap read_le32 at ∙ omega arith,
      take-take_append 40 rj rest (omega arith),
      sym (drop-drop 40 4 (take 40 rj ++ rest)) ∙ ap (drop 4) at,
      omega (
        arith,
        length-append (take 40 rj) rest,
        length-append (le32 tp) (drop 44 rj),
        length-take 40 rj (omega arith),
        length-drop 44 rj,
      ),
    )
