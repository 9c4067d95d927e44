-- ===== src/Bench/Sizes.antt =====
-- examples/urma_bench.rs: the sizes of a sweep, as they are written on the command line.
pub mod Laws
use urma_rs.Base.{
  ℕ, zero, suc, ◌+◌, ◌-◌, ◌*◌, ◌^◌, ltb, leb, ◌==◌, ◌&&◌, Bool, true, false, String, List, [], ◌∷◌,
  Option, none, some, if◌then◌else◌,
}
use urma_rs.Error.{
  Result, ok, err, invalid, text, bad_size, size_overflows, contains_zero, size_exceeds_sge,
  empty_size_range, ◌>>=◌,
}
use urma_rs.Cli.Hex.{trim}

abbrev pub default_buf_len : ℕ
default_buf_len = 1048576

-- `usize::from_str`: a sign `+` may stand in front of at least one digit.
unfoldable pub digits : ℕ → List ℕ → Option ℕ
digits acc [] = some acc
digits acc (c ∷ s) =
    if leb b'0' c && leb c b'9' && ltb (acc * 10 + (c - b'0')) (2 ^ 64)
    then digits (acc * 10 + (c - b'0')) s
    else none

unfoldable pub parse_usize : List ℕ → Option ℕ
parse_usize [] = none
parse_usize (c ∷ []) = digits 0 (c ∷ [])
parse_usize (c ∷ d ∷ s) = digits 0 (if c == b'+' then d ∷ s else c ∷ d ∷ s)

-- The factor that a last byte stands for; 1 where it is no suffix.
unfoldable pub suffix : ℕ → ℕ
suffix c =
    if (c == b'k')
    then 2 ^ 10
    else if (c == b'K')
    then 2 ^ 10
    else if (c == b'm')
    then 2 ^ 20
    else if (c == b'M')
    then 2 ^ 20
    else if (c == b'g')
    then 2 ^ 30
    else if (c == b'G')
    then 2 ^ 30
    else 1

-- The number in front and the factor.
unfoldable pub split_suffix : List ℕ → List ℕ × ℕ
split_suffix [] = ([], 1)
split_suffix (c ∷ []) = if suffix c == 1 then (c ∷ [], 1) else ([], suffix c)
split_suffix (c ∷ d ∷ s) = let (num, mult) = split_suffix (d ∷ s) in (c ∷ num, mult)

-- The limits of a size that has been read.
unfoldable pub limit_size : List ℕ → String → ℕ → Result ℕ
limit_size tok what n =
    if leb (2 ^ 64) n
    then err (invalid (size_overflows tok))
    else if n == 0
    then err (invalid (contains_zero what))
    else if ltb (2 ^ 32 - 1) n
    then err (invalid (size_exceeds_sge n what))
    else ok n

-- The number that stands in front, with its factor.
unfoldable pub scaled : List ℕ → String → Option ℕ → ℕ → Result ℕ
scaled tok what none mult = err (invalid (bad_size tok what))
scaled tok what (some n) mult = limit_size tok what (n * mult)

unfoldable pub parse_one_size : List ℕ → String → Result ℕ
parse_one_size s what =
    let (num, mult) = split_suffix (trim s) in scaled (trim s) what (parse_usize num) mult

-- `split_once("..")`.
unfoldable pub split_dots : List ℕ → Option (List ℕ × List ℕ)
split_dots [] = none
split_dots (c ∷ []) = none
split_dots (c ∷ d ∷ s) =
    if (c == b'.') && (d == b'.')
    then some ([], s)
    else elim (split_dots (d ∷ s)) [ none ↦ none | some (a, b) ↦ some (c ∷ a, b) ]

-- `split(',')`.
unfoldable pub split_commas : List ℕ → List (List ℕ)
split_commas [] = [] ∷ []
split_commas (c ∷ s) = elim (split_commas s) [
  | [] ↦ (c ∷ []) ∷ []
  | part ∷ parts ↦ if c == b',' then [] ∷ (part ∷ parts) else (c ∷ part) ∷ parts
]

-- The sizes behind `size` of a doubling sweep; a usize doubles at most 64 times.
unfoldable pub doubles : ℕ → ℕ → ℕ → List ℕ
doubles zero size last = []
doubles (suc fuel) size last =
    let rest = doubles fuel (size * 2) last in
    if ltb (size * 2) (2 ^ 64) && leb (size * 2) last then size * 2 ∷ rest else []

-- `sort_unstable`.
unfoldable pub insert_sorted : ℕ → List ℕ → List ℕ
insert_sorted x [] = x ∷ []
insert_sorted x (y ∷ ys) = let rest = insert_sorted x ys in if leb x y then x ∷ y ∷ ys else y ∷ rest

unfoldable pub sort : List ℕ → List ℕ
sort [] = []
sort (x ∷ xs) = insert_sorted x (sort xs)

-- `dedup`: of equal neighbours the first stays.
unfoldable pub dedup : List ℕ → List ℕ
dedup [] = []
dedup (x ∷ []) = x ∷ []
dedup (x ∷ y ∷ ys) = let rest = dedup (y ∷ ys) in if x == y then rest else x ∷ rest

-- A token of a comma list, which is left out when it is blank, before the sizes of the others.
unfoldable pub parse_part : List ℕ → List ℕ → Result (List ℕ) → Result (List ℕ)
parse_part part [] sizes = sizes
parse_part part (c ∷ cs) sizes = parse_one_size part "--sizes" >>= λ n. sizes >>= λ ns. ok (n ∷ ns)

unfoldable pub parse_parts : List (List ℕ) → Result (List ℕ)
parse_parts [] = ok []
parse_parts (part ∷ parts) = parse_part part (trim part) (parse_parts parts)

unfoldable pub sorted_sizes : List ℕ → Result (List ℕ)
sorted_sizes [] = err (invalid (text "--sizes is empty"))
sorted_sizes (n ∷ sizes) = ok (dedup (sort (n ∷ sizes)))

-- "first..last".
unfoldable pub parse_range : List ℕ → List ℕ → Result (List ℕ)
parse_range a b = do
  first ← parse_one_size a "--sizes"
  last ← parse_one_size b "--sizes"
  if ltb last first
      then err (invalid (empty_size_range first last))
      else ok (first ∷ doubles 64 first last)

-- A range where there are two dots, and a comma list otherwise.
unfoldable pub parse_dots : List ℕ → Option (List ℕ × List ℕ) → Result (List ℕ)
parse_dots spec (some (a, b)) = parse_range a b
parse_dots spec none = parse_parts (split_commas spec) >>= sorted_sizes

-- The text without the white space around it.
unfoldable pub parse_spec : List ℕ → Result (List ℕ)
parse_spec [] = err (invalid (text "--sizes is empty"))
parse_spec (c ∷ spec) = parse_dots (c ∷ spec) (split_dots (c ∷ spec))

unfoldable pub parse_sizes : List ℕ → Result (List ℕ)
parse_sizes spec = parse_spec (trim spec)

-- `bench_sizes`, of the fields `iters` and `sizes`.
unfoldable pub bench_sizes : ℕ → List ℕ → Result (List ℕ)
bench_sizes iters sizes =
    if iters == 0 then err (invalid (text "--iters must be at least 1")) else parse_sizes sizes

-- `last().unwrap()`.
unfoldable pub last : List ℕ → Result ℕ
last [] = err (invalid (text "called `Option::unwrap()` on a `None` value"))
last (x ∷ []) = ok x
last (x ∷ y ∷ ys) = last (y ∷ ys)

unfoldable pub resolve_buf_len : Option ℕ → Option (List ℕ) → Result ℕ
resolve_buf_len (some n) sizes =
    if n == 0 then err (invalid (text "--buf-len must be at least 1")) else ok n
resolve_buf_len none (some spec) = parse_sizes spec >>= last
resolve_buf_len none none = ok default_buf_len
