-- ===== src/Urma/Cap/Laws.antt =====
-- What the queries of `DeviceCap` answer.
use urma_rs.Base.{
  ℕ, zero, suc, ◌+◌, ◌*◌, ◌/◌, ◌%◌, ◌^◌, ◌<◌, ltb, bit_and, ◌≡◌, ◌↔◌, inl, inr, refl, ap, subst,
  Bool, true, false, List, [], ◌∷◌, ◌++◌, Option, none, some, length, get_elem?, position,
  Bool-cases, Option-cases, arith, All, map, ◌==◌,
}
use urma_rs.Ffi.Flags.{has_bits}
use urma_rs.Ffi.Flags.Fields.{bit_and_field}
use urma_rs.Ffi.Flags.DeviceFeature.{ctp_en}
use urma_rs.Ffi.Flags.TpTypeCap.{ctp as raw_ctp}
use urma_rs.Ffi.DeviceCap.{UrmaDeviceCap, UrmaSlInfo}
use urma_rs.Urma.Modes.{TransMode, rm, rc, um, TpType, rtp, ctp, utp}
use urma_rs.Urma.Cap.{
  DeviceCap, from_raw, supports, supports_mode, supported_combos, priority_for, serves, combos_of,
  slot_cap,
}

-- One bit of a word of 32.
module _ (v : ℕ) (fits : v < 2 ^ 32) where
  bit_0 : has_bits v 1 ≡ ltb 0 (v % 2)
  bit_0 =
      let e : v ≡ (v / 2 * 2 ^ 1 + v % 2) * 2 ^ 0 + 0 = omega arith in
      let f = bit_and_field 0 1 31 (v / 2) (v % 2) 0 (omega arith) (omega arith) (omega arith) 1 in
      ground (arith, ap (λ (t : ℕ). bit_and t 1) e, f)

  bit_1 : has_bits v 2 ≡ ltb 0 (v / 2 % 2)
  bit_1 =
      let e : v ≡ (v / 2 ^ 2 * 2 ^ 1 + v / 2 % 2) * 2 ^ 1 + v % 2 = omega arith in
      let f =
        bit_and_field 1 1 30 (v / 2 ^ 2) (v / 2 % 2) (v % 2) (omega arith) (omega arith)
          (omega arith) 1 in
      ground (arith, ap (λ (t : ℕ). bit_and t 2) e, f)

  bit_2 : has_bits v 4 ≡ ltb 0 (v / 4 % 2)
  bit_2 =
      let e : v ≡ (v / 2 ^ 3 * 2 ^ 1 + v / 4 % 2) * 2 ^ 2 + v % 4 = omega arith in
      let f =
        bit_and_field 2 1 29 (v / 2 ^ 3) (v / 4 % 2) (v % 4) (omega arith) (omega arith)
          (omega arith) 1 in
      ground (arith, ap (λ (t : ℕ). bit_and t 4) e, f)

  bit_18 : has_bits v (2 ^ 18) ≡ ltb 0 (v / 2 ^ 18 % 2)
  bit_18 =
      let e : v ≡ (v / 2 ^ 19 * 2 ^ 1 + v / 2 ^ 18 % 2) * 2 ^ 18 + v % 2 ^ 18 = omega arith in
      let f =
        bit_and_field 18 1 13 (v / 2 ^ 19) (v / 2 ^ 18 % 2) (v % 2 ^ 18) (omega arith) (omega arith)
          (omega arith) 1 in
      ground (arith, ap (λ (t : ℕ). bit_and t (2 ^ 18)) e, f)

-- For a raw capability whose words fit their types, CTP-RM is supported exactly when bit 0 of
-- trans_mode, bit 1 of the RM tp types and bit 18 of the device features are all set.
pub supports-from_raw :
    (cap : UrmaDeviceCap)
    → cap.trans_mode < 2 ^ 16
    → cap.rm_tp_cap.value < 2 ^ 32
    → cap.feature.value < 2 ^ 32
    → (supports (from_raw cap) rm ctp ≡ true) ↔ (
        (cap.trans_mode % 2 ≡ 1)
        × (cap.rm_tp_cap.value / 2 % 2 ≡ 1)
        × (cap.feature.value / 2 ^ 18 % 2 ≡ 1))
unfolding supports supports_mode from_raw ctp_en raw_ctp
supports-from_raw cap a b c = ground (
  arith,
  bit_0 cap.trans_mode (omega arith),
  bit_1 cap.rm_tp_cap.value b,
  bit_18 cap.feature.value c,
)

-- All nine combinations, in the order of declaration.
abbrev pub all_combos : List (TransMode × TpType)
all_combos =
    (rm, rtp)
    ∷ (rm, ctp)
    ∷ (rm, utp)
    ∷ (rc, rtp)
    ∷ (rc, ctp)
    ∷ (rc, utp)
    ∷ (um, rtp)
    ∷ (um, ctp)
    ∷ (um, utp)
    ∷ []

abbrev pub select : DeviceCap → List (TransMode × TpType) → List (TransMode × TpType)
select c [] = []
select c ((m, tp) ∷ rest) = elim (supports c m tp) [
  | true ↦ (m, tp) ∷ select c rest
  | false ↦ select c rest
]

select-combos_of :
    (c : DeviceCap) (m : TransMode) (rest : List (TransMode × TpType))
    → select c ((m, rtp) ∷ (m, ctp) ∷ (m, utp) ∷ rest)
      ≡ combos_of c m (rtp ∷ ctp ∷ utp ∷ []) ++ select c rest
unfolding combos_of
select-combos_of c m rest = ground arith

-- supported_combos lists the supported ones of the nine combinations, in the order of declaration,
-- and no others.
pub supported_combos-select : (c : DeviceCap) → supported_combos c ≡ select c all_combos
unfolding supported_combos
supported_combos-select c = ground (
  arith,
  select-combos_of c rm
      ((rc, rtp) ∷ (rc, ctp) ∷ (rc, utp) ∷ (um, rtp) ∷ (um, ctp) ∷ (um, utp) ∷ []),
  select-combos_of c rc ((um, rtp) ∷ (um, ctp) ∷ (um, utp) ∷ []),
  select-combos_of c um [],
)

-- The answer of a search for the first element that passes the test.
abbrev pub IsLowest {ℓ} : {A : Type ℓ} → (A → Bool) → List A → Option ℕ → Type ℓ
IsLowest {A} test xs none = (j : ℕ) (y : A) → get_elem? xs j ≡ some y → test y ≡ false
IsLowest {A} test xs (some i) =
    (x : A) × (get_elem? xs i ≡ some x)
    × (test x ≡ true)
    × ((j : ℕ) (y : A) → j < i → get_elem? xs j ≡ some y → test y ≡ false)

module _ {ℓ} {A : Type ℓ} (test : A → Bool) (x : A) (xs : List A) (fails : test x ≡ false) where
  none_cons :
      ((j : ℕ) (y : A) → get_elem? xs j ≡ some y → test y ≡ false)
      → (j : ℕ) (y : A) → get_elem? (x ∷ xs) j ≡ some y
      → test y ≡ false
  none_cons h zero y e = ground arith
  none_cons h (suc j) y e = h j y e

  below_cons :
      (i : ℕ)
      → ((j : ℕ) (y : A) → j < i → get_elem? xs j ≡ some y → test y ≡ false)
      → (j : ℕ) (y : A) → j < suc i
      → get_elem? (x ∷ xs) j ≡ some y
      → test y ≡ false
  below_cons i h zero y lt e = ground arith
  below_cons i h (suc j) y lt e = h j y (omega arith) e

module _ {ℓ} {A : Type ℓ} (test : A → Bool) where
  position-IsLowest : (xs : List A) → IsLowest test xs (position test xs)
  position-IsLowest [] = λ j y e. cc
  position-IsLowest (x ∷ xs) =
      let ih = position-IsLowest xs in
      elim (Bool-cases (test x)) [
        | inl here ↦ rw (here, position) (x, refl, here, λ j y lt. absurd (omega arith))
        | inr there ↦ elim (Option-cases (position test xs)) [
          | inl e ↦
              rw (there, position, e) (none_cons test x xs there (subst (IsLowest test xs) e ih))
          | inr (i, e) ↦
              let (y, at, passes, below) = subst (IsLowest test xs) e ih in
              rw (there, position, e) (y, at, passes, below_cons test x xs there i below)
        ]
      ]

  get_elem?-lt : (xs : List A) (i : ℕ) (x : A) → get_elem? xs i ≡ some x → i < length xs
  get_elem?-lt [] i x e = absurd (cc)
  get_elem?-lt (y ∷ xs) zero x e = omega arith
  get_elem?-lt (y ∷ xs) (suc i) x e = omega (arith, get_elem?-lt xs i x e)

-- The bit of the tp type in the class of a slot, as `union urma_tp_type_en` of the C headers lays
-- it out.
abbrev pub class_bit : TpType → ℕ
class_bit rtp = 0
class_bit ctp = 1
class_bit utp = 2

abbrev pub in_class : TpType → UrmaSlInfo → Bool
in_class tp sl = sl.tp_type / 2 ^ class_bit tp % 2 == 1

serves-slot_cap :
    (tp : TpType) (sl : UrmaSlInfo) → sl.tp_type < 2 ^ 32 → serves tp (slot_cap sl) ≡ in_class tp sl
unfolding slot_cap
serves-slot_cap rtp sl h = ground (arith, bit_0 sl.tp_type h)
serves-slot_cap ctp sl h = ground (arith, bit_1 sl.tp_type h)
serves-slot_cap utp sl h = ground (arith, bit_2 sl.tp_type h)

position-map :
    {A B : Type 0} (test : B → Bool) (want : A → Bool) (g : A → B) (P : A → Type 0)
    → ((x : A) → P x → test (g x) ≡ want x)
    → (xs : List A) → All P xs
    → position test (map g xs) ≡ position want xs
position-map test want g P same [] h = refl
position-map test want g P same (x ∷ xs) h =
    let ih = position-map test want g P same xs h.1 in
    elim (Bool-cases (want x)) [
      | inl here ↦ ground (arith, same x h.0, here)
      | inr there ↦ ground (arith, same x h.0, there, ih)
    ]

-- For the raw capability of a device, with sixteen priority slots whose class words are below 2^32,
-- priority_for of what from_raw makes of it answers the lowest slot whose class word has the bit of
-- the tp type (bit 0 for RTP, 1 for CTP, 2 for UTP), and none exactly where no slot has it.
pub priority_for-IsLowest :
    (cap : UrmaDeviceCap) (tp : TpType)
    → length cap.priority_info ≡ 16
    → All (λ sl. sl.tp_type < 2 ^ 32) cap.priority_info
    → IsLowest (in_class tp) cap.priority_info (priority_for (from_raw cap) tp)
unfolding priority_for from_raw
priority_for-IsLowest cap tp slots words =
    let found = position-IsLowest (in_class tp) cap.priority_info in
    let same : position (serves tp) (map slot_cap cap.priority_info)
        ≡ position (in_class tp) cap.priority_info =
      position-map (serves tp) (in_class tp) slot_cap (λ sl. sl.tp_type < 2 ^ 32)
        (serves-slot_cap tp) cap.priority_info words in
    elim (Option-cases (position (in_class tp) cap.priority_info)) [
      | inl e ↦
          rw (same, priority_for, e) (subst (IsLowest (in_class tp) cap.priority_info) e found)
      | inr (i, e) ↦
          let (x, at, passes, below) = subst (IsLowest (in_class tp) cap.priority_info) e found in
          let bound = get_elem?-lt (in_class tp) cap.priority_info i x at in
          let small : i % 2 ^ 8 ≡ i = omega arith in
          rw (same, priority_for, e, small) (x, at, passes, below)
    ]
