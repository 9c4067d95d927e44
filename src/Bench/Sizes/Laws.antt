-- ===== src/Bench/Sizes/Laws.antt =====
-- The sizes of a sweep ascend, and fit the length of an sge.
use urma_rs.Base.{
  ℕ, zero, suc, ◌-◌, ◌*◌, ◌^◌, ◌<◌, ◌≤◌, ltb, leb, ◌&&◌, ◌==◌, String, List, [], ◌∷◌, Option, none,
  some, if◌then◌else◌, All, length, Bool-cases, inl, inr, arith,
}
use urma_rs.Error.{Ensures, then-Ensures, Result, ok, err, invalid, empty_size_range, ◌>>=◌}
use urma_rs.Cli.Hex.{trim}
use urma_rs.Bench.Sizes.{
  scaled, limit_size, parse_usize, split_suffix, parse_one_size, split_dots, split_commas, doubles,
  insert_sorted, sort, dedup, parse_part, parse_parts, parse_dots, sorted_sizes, parse_range,
  parse_spec, parse_sizes, last, resolve_buf_len,
}

-- Beyond `low`, each larger than the one before, and none above what a u32 holds.
abbrev pub Ascends : ℕ → List ℕ → Type 0
Ascends low [] = Unit
Ascends low (x ∷ xs) = (low < x) × (x < 2 ^ 32) × Ascends x xs

abbrev pub IsSweep : List ℕ → Type 0
IsSweep xs = (0 < length xs) × Ascends 0 xs

abbrev IsSize : ℕ → Type 0
IsSize n = (0 < n) × (n < 2 ^ 32)

limit_size-IsSize : (tok : List ℕ) (what : String) (n : ℕ) → Ensures IsSize (limit_size tok what n)
unfolding limit_size
limit_size-IsSize tok what n = elim (Bool-cases (leb (2 ^ 64) n)) [
  | inl e ↦ rw e tt
  | inr e ↦ elim (Bool-cases (n == 0)) [
    | inl e' ↦ rw (e, e') tt
    | inr e' ↦ elim (Bool-cases (ltb (2 ^ 32 - 1) n)) [
      | inl e2 ↦ rw (e, e', e2) tt
      | inr e2 ↦ rw (e, e', e2) (ground arith, ground arith)
    ]
  ]
]

doubles-Ascends :
    (fuel size top : ℕ) → 0 < size → top < 2 ^ 32 → Ascends size (doubles fuel size top)
unfolding doubles
doubles-Ascends zero size top a b = tt
doubles-Ascends (suc fuel) size top a b =
    elim (Bool-cases (ltb (size * 2) (2 ^ 64) && leb (size * 2) top)) [
      | inl e ↦
          let low : size * 2 ≤ top = ground arith in
          rw e (
            omega (arith, a),
            omega (arith, low, b),
            doubles-Ascends fuel (size * 2) top (omega (arith, a)) b,
          )
      | inr e ↦ rw e tt
    ]

-- Not below `low`, and in order.
abbrev Climbs : ℕ → List ℕ → Type 0
Climbs low [] = Unit
Climbs low (x ∷ xs) = (low ≤ x) × IsSize x × Climbs x xs

insert_sorted-Climbs :
    (x low : ℕ) (xs : List ℕ) → low ≤ x → IsSize x → Climbs low xs → Climbs low (insert_sorted x xs)
unfolding insert_sorted
insert_sorted-Climbs x low [] h k c = (h, k, tt)
insert_sorted-Climbs x low (y ∷ ys) h k (l, s, c) = elim (Bool-cases (leb x y)) [
  | inl e ↦ rw e (h, k, (ground arith, s, c))
  | inr e ↦ rw e (l, s, insert_sorted-Climbs x y ys (ground arith) k c)
]

sort-Climbs : (xs : List ℕ) → All IsSize xs → Climbs 0 (sort xs)
unfolding sort
sort-Climbs [] h = tt
sort-Climbs (x ∷ xs) h = insert_sorted-Climbs x 0 (sort xs) (omega arith) h.0 (sort-Climbs xs h.1)

dedup-Ascends :
    (low x : ℕ) (xs : List ℕ) → low < x → Climbs x (x ∷ xs) → Ascends low (dedup (x ∷ xs))
unfolding dedup
dedup-Ascends low x [] h (l, s, c) = (h, s.1, tt)
dedup-Ascends low x (y ∷ ys) h (l, s, (k, t, c)) = elim (Bool-cases (x == y)) [
  | inl e ↦ rw e (dedup-Ascends low y ys (omega (arith, h, k)) (omega arith, t, c))
  | inr e ↦ rw e (h, s.1, dedup-Ascends x y ys (ground (arith, k)) (omega arith, t, c))
]

scaled-IsSize :
    (tok : List ℕ) (what : String) (n : Option ℕ) (mult : ℕ)
    → Ensures IsSize (scaled tok what n mult)
unfolding scaled
scaled-IsSize tok what none mult = tt
scaled-IsSize tok what (some n) mult = limit_size-IsSize tok what (n * mult)

parse_one_size-IsSize : (s : List ℕ) (what : String) → Ensures IsSize (parse_one_size s what)
unfolding parse_one_size
parse_one_size-IsSize s what =
    scaled-IsSize (trim s) what (parse_usize (split_suffix (trim s)).0) (split_suffix (trim s)).1

parse_part-IsSize :
    (part cs : List ℕ) (sizes : Result (List ℕ))
    → Ensures (All IsSize) sizes
    → Ensures (All IsSize) (parse_part part cs sizes)
unfolding parse_part
parse_part-IsSize part [] sizes h = h
parse_part-IsSize part (c ∷ cs) sizes h =
    then-Ensures IsSize (All IsSize) (parse_one_size part "--sizes") _
      (parse_one_size-IsSize part "--sizes")
      (λ n k. then-Ensures (All IsSize) (All IsSize) sizes (λ ns. ok (n ∷ ns)) h (λ ns l. (k, l)))

parse_parts-IsSize : (parts : List (List ℕ)) → Ensures (All IsSize) (parse_parts parts)
unfolding parse_parts
parse_parts-IsSize [] = tt
parse_parts-IsSize (part ∷ parts) =
    parse_part-IsSize part (trim part) (parse_parts parts) (parse_parts-IsSize parts)

dedup-some : (x : ℕ) (xs : List ℕ) → 0 < length (dedup (x ∷ xs))
unfolding dedup
dedup-some x [] = omega arith
dedup-some x (y ∷ ys) = elim (Bool-cases (x == y)) [
  | inl e ↦ rw e (dedup-some y ys)
  | inr e ↦ rw e (omega arith)
]

insert_sorted-some : (x : ℕ) (xs : List ℕ) → 0 < length (insert_sorted x xs)
unfolding insert_sorted
insert_sorted-some x [] = omega arith
insert_sorted-some x (y ∷ ys) = elim (Bool-cases (leb x y)) [
  | inl e ↦ rw e (omega arith)
  | inr e ↦ rw e (omega arith)
]

dedup-IsSweep : (xs : List ℕ) → Climbs 0 xs → 0 < length xs → IsSweep (dedup xs)
dedup-IsSweep [] c h = absurd (omega (arith, h))
dedup-IsSweep (x ∷ xs) (l, s, c) h = (dedup-some x xs, dedup-Ascends 0 x xs s.0 (omega arith, s, c))

sorted_sizes-IsSweep : (xs : List ℕ) → All IsSize xs → Ensures IsSweep (sorted_sizes xs)
unfolding sorted_sizes sort
sorted_sizes-IsSweep [] h = tt
sorted_sizes-IsSweep (x ∷ xs) h =
    dedup-IsSweep (sort (x ∷ xs)) (sort-Climbs (x ∷ xs) h) (insert_sorted-some x (sort xs))

range-IsSweep :
    (first top : ℕ)
    → IsSize first
    → IsSize top
    → Ensures IsSweep (
        if ltb top first
        then err (invalid (empty_size_range first top))
        else ok (first ∷ doubles 64 first top))
range-IsSweep first top h k = elim (Bool-cases (ltb top first)) [
  | inl e ↦ rw e tt
  | inr e ↦ rw e (omega arith, (h.0, h.1, doubles-Ascends 64 first top h.0 k.1))
]

parse_range-IsSweep : (a b : List ℕ) → Ensures IsSweep (parse_range a b)
unfolding parse_range
parse_range-IsSweep a b =
    then-Ensures IsSize IsSweep (parse_one_size a "--sizes") _ (parse_one_size-IsSize a "--sizes")
      (λ first h.
        then-Ensures IsSize IsSweep (parse_one_size b "--sizes") _
          (parse_one_size-IsSize b "--sizes") (λ top k. range-IsSweep first top h k))

parse_dots-IsSweep :
    (spec : List ℕ) (d : Option (List ℕ × List ℕ)) → Ensures IsSweep (parse_dots spec d)
unfolding parse_dots
parse_dots-IsSweep spec (some (a, b)) = parse_range-IsSweep a b
parse_dots-IsSweep spec none =
    then-Ensures (All IsSize) IsSweep (parse_parts (split_commas spec)) sorted_sizes
      (parse_parts-IsSize (split_commas spec)) sorted_sizes-IsSweep

parse_spec-IsSweep : (s : List ℕ) → Ensures IsSweep (parse_spec s)
unfolding parse_spec
parse_spec-IsSweep [] = tt
parse_spec-IsSweep (c ∷ s) = parse_dots-IsSweep (c ∷ s) (split_dots (c ∷ s))

-- Whatever the text, sizes that are parsed are at least one, each larger than the one before, none
-- of them 0 and none above what a u32 holds.
pub parse_sizes-IsSweep : (spec : List ℕ) → Ensures IsSweep (parse_sizes spec)
unfolding parse_sizes
parse_sizes-IsSweep spec = parse_spec-IsSweep (trim spec)

last-largest :
    (low x : ℕ) (xs : List ℕ)
    → Ascends low (x ∷ xs)
    → Ensures (λ len. All (λ size. size ≤ len) (x ∷ xs)) (last (x ∷ xs))
unfolding last
last-largest low x [] c = (omega arith, tt)
last-largest low x (y ∷ ys) (l, b, c) = go (last (y ∷ ys)) (last-largest x y ys c)
  where
    go :
        (r : Result ℕ)
        → Ensures (λ len. All (λ size. size ≤ len) (y ∷ ys)) r
        → Ensures (λ len. All (λ size. size ≤ len) (x ∷ y ∷ ys)) r
    go (ok len) h = (omega (arith, h.0, c.0), h)
    go (err e) h = tt

largest :
    (r : Result (List ℕ))
    → Ensures IsSweep r
    → Ensures (λ len. Ensures (All (λ size. size ≤ len)) r) (r >>= last)
largest (ok []) h = absurd (omega (arith, h.0))
largest (ok (x ∷ xs)) h = last-largest 0 x xs h.1
largest (err e) h = tt

-- The buffer of a server that is given the sweep has room for every size of it.
pub resolve_buf_len-largest :
    (spec : List ℕ)
    → Ensures
        (λ len. Ensures (All (λ size. size ≤ len)) (parse_sizes spec))
        (resolve_buf_len none (some spec))
unfolding resolve_buf_len
resolve_buf_len-largest spec = largest (parse_sizes spec) (parse_sizes-IsSweep spec)

last-fits :
    (low x : ℕ) (xs : List ℕ) → Ascends low (x ∷ xs) → Ensures (λ len. len < 2 ^ 32) (last (x ∷ xs))
unfolding last
last-fits low x [] (l, b, c) = b
last-fits low x (y ∷ ys) (l, b, c) = last-fits x y ys c

greatest : (r : Result (List ℕ)) → Ensures IsSweep r → Ensures (λ len. len < 2 ^ 32) (r >>= last)
greatest (ok []) h = absurd (omega (arith, h.0))
greatest (ok (x ∷ xs)) h = last-fits 0 x xs h.1
greatest (err e) h = tt

-- Its length fits a u32.
pub resolve_buf_len-fits :
    (spec : List ℕ) → Ensures (λ len. len < 2 ^ 32) (resolve_buf_len none (some spec))
unfolding resolve_buf_len
resolve_buf_len-fits spec = greatest (parse_sizes spec) (parse_sizes-IsSweep spec)
