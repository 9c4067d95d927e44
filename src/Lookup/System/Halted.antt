-- ===== src/Lookup/System/Halted.antt =====
-- A client that fails before it has asked for the end.
use urma_rs.Base.{
  ℕ, zero, suc, ◌==◌, true, false, List, [], ◌∷◌, some, ◌≡◌, refl, get_elem?, replicate, set, arith,
  Bool-cases, inl, inr,
}
use urma_rs.Lookup.System.{
  Barrier, System, m_ready, m_done, return, at_work, registering, at_ready, at_done, finished, Step,
  registers, pushes, calls_ready, gets_directory, calls_done, finishes, fails, Reach, start, next,
}

get_elem?-set_other :
    {A : Type 0} (xs : List A) (i j : ℕ) (v : A)
    → (i == j) ≡ false
    → get_elem? (set xs j v) i ≡ get_elem? xs i
get_elem?-set_other [] i j v e = refl
get_elem?-set_other (x ∷ xs) zero zero v e = ground arith
get_elem?-set_other (x ∷ xs) zero (suc j) v e = refl
get_elem?-set_other (x ∷ xs) (suc i) zero v e = refl
get_elem?-set_other (x ∷ xs) (suc i) (suc j) v e = get_elem?-set_other xs i j v (ground (arith, e))

-- A client that has failed stands where clients are at work.
abbrev pub IsHalted : System → Type 0
IsHalted s =
    (i : ℕ)
    → get_elem? s.gone i ≡ some true
    → (x : ℕ) × (get_elem? s.stages i ≡ some x) × (at_work x ≡ true)

none_gone : (n i : ℕ) → get_elem? (replicate n false) i ≡ some true → ⊥
none_gone zero i e = absurd (cc)
none_gone (suc n) zero e = absurd (ground arith)
none_gone (suc n) (suc i) e = none_gone n i e

-- A step of a client that has not failed.
moved-IsHalted :
    (s t : System) (j v : ℕ)
    → IsHalted s
    → t.gone ≡ s.gone
    → t.stages ≡ set s.stages j v
    → (get_elem? s.gone j ≡ some true → ⊥)
    → IsHalted t
moved-IsHalted s t j v h same moved active i e = elim (Bool-cases (i == j)) [
  | inl here ↦ absurd (active (ground (arith, same, here)))
  | inr other ↦
      let (x, at, work) = h i (ground (arith, same)) in
      (x, ground (arith, moved, at, get_elem?-set_other s.stages i j v other), work)
]

module _ (b : Barrier) (n : ℕ) where
  Step-IsHalted : {s t : System} → Step b n s t → IsHalted s → IsHalted t
  unfolding m_ready m_done return
  Step-IsHalted {s} {t} (registers i reg addr m e on fits r q) h =
      moved-IsHalted s t i registering h (ground (arith, q)) (ground (arith, q))
        (λ g. ground (arith, on, g))
  Step-IsHalted {s} {t} (pushes i j first m e r q) h =
      moved-IsHalted s t i 2 h (ground (arith, q)) (ground (arith, q)) (λ g. ground (arith, h i g))
  Step-IsHalted {s} {t} (calls_ready i e on q) h =
      moved-IsHalted s t i at_ready h (ground (arith, q)) (ground (arith, q))
        (λ g. ground (arith, on, g))
  Step-IsHalted {s} {t} (gets_directory i srv dir e r q) h =
      moved-IsHalted s t i 4 h (ground (arith, q)) (ground (arith, q)) (λ g. ground (arith, h i g))
  Step-IsHalted {s} {t} (calls_done i e on q) h =
      moved-IsHalted s t i at_done h (ground (arith, q)) (ground (arith, q))
        (λ g. ground (arith, on, g))
  Step-IsHalted {s} {t} (finishes i srv e r q) h =
      moved-IsHalted s t i finished h (ground (arith, q)) (ground (arith, q))
        (λ g. ground (arith, h i g))
  Step-IsHalted {s} {t} (fails j x at work on q) h = λ i e. elim (Bool-cases (i == j)) [
    | inl here ↦ (x, ground (arith, q, here, at), work)
    | inr other ↦
        let (y, at', work') = h i (ground (arith, q, get_elem?-set_other s.gone i j true other)) in
        (y, ground (arith, q, at'), work')
  ]

  pub Reach-IsHalted : {s : System} → Reach b n s → IsHalted s
  Reach-IsHalted start = λ i e. absurd (none_gone n i e)
  Reach-IsHalted (next r step) = Step-IsHalted step (Reach-IsHalted r)
