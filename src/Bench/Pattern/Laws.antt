-- ===== src/Bench/Pattern/Laws.antt =====
-- What the comparison with the pattern finds.
use urma_rs.Base.{ℕ, suc, ◌%◌, ◌≡◌, ◌↔◌, refl, sym, ◌∙◌, String, List, [], ◌∷◌, arith}
use urma_rs.Error.{ok}
use urma_rs.Bench.Pattern.{pat, fill_from, fill_pat, check_from, check_pat}

check_from-filled :
    (what : String) (i : ℕ) (buf : List ℕ)
    → (check_from what i buf ≡ ok tt) ↔ (buf ≡ fill_from i buf)
unfolding check_from fill_from
check_from-filled what i [] = (λ e. refl, λ e. refl)
check_from-filled what i (b ∷ buf) =
    let (there, back) = check_from-filled what (suc i) buf in
    (λ e. ground (arith, there), λ e. ground (arith, back))

-- The comparison passes exactly on the pattern.
pub check_pat-fill_pat :
    (what : String) (buf : List ℕ) → (check_pat what buf ≡ ok tt) ↔ (buf ≡ fill_pat buf)
unfolding check_pat fill_pat
check_pat-fill_pat what buf = check_from-filled what 0 buf

pat_inj : (i : ℕ) → pat i ≡ pat 0 → i % 256 ≡ 0
unfolding pat
pat_inj i e = omega (arith, e)

pat_period : (i j : ℕ) → i % 256 ≡ j % 256 → pat i ≡ pat j
unfolding pat
pat_period i j e = rw e refl

fill_from-period : (i j : ℕ) (buf : List ℕ) → i % 256 ≡ j % 256 → fill_from i buf ≡ fill_from j buf
unfolding fill_from
fill_from-period i j [] e = refl
fill_from-period i j (b ∷ buf) e =
    let e' : suc i % 256 ≡ suc j % 256 = omega (arith, e) in
    ground (arith, pat_period i j e, fill_from-period (suc i) (suc j) buf e')

pub refill : (i j : ℕ) (buf : List ℕ) → fill_from i (fill_from j buf) ≡ fill_from i buf
unfolding fill_from
refill i j [] = refl
refill i j (b ∷ buf) = rw (refill (suc i) (suc j) buf) refl

shift_head :
    (d b : ℕ) (buf : List ℕ)
    → fill_from d (b ∷ buf) ≡ fill_from 0 (fill_from d (b ∷ buf))
    → pat d ≡ pat 0
unfolding fill_from
shift_head d b buf e = cc

-- Bytes of a filled buffer that were read a distance too far pass the comparison with the pattern
-- exactly where the distance is a multiple of 256.
pub check_pat-shift :
    (what : String) (d b : ℕ) (buf : List ℕ)
    → (check_pat what (fill_from d (b ∷ buf)) ≡ ok tt) ↔ (d % 256 ≡ 0)
unfolding check_pat
check_pat-shift what d b buf =
    let (there, back) = check_from-filled what 0 (fill_from d (b ∷ buf)) in
    (
      λ e. pat_inj d (shift_head d b buf (there e)),
      λ e. back (fill_from-period d 0 (b ∷ buf) e ∙ sym (refill 0 d (b ∷ buf))),
    )
