-- ===== src/Bench/Pattern.antt =====
-- examples/urma_bench.rs: the data pattern of the buffers.
pub mod Laws
use urma_rs.Base.{ℕ, zero, suc, ◌+◌, ◌*◌, ◌%◌, ◌==◌, String, List, [], ◌∷◌, if◌then◌else◌}
use urma_rs.Error.{Result, ok, err, invalid, bad_pattern}

-- `(i as u8).wrapping_mul(31).wrapping_add(7)`.
unfoldable pub pat : ℕ → ℕ
pat i = (i % 256 * 31 % 256 + 7) % 256

-- The bytes of a buffer from index `i` on.
unfoldable pub fill_from : ℕ → List ℕ → List ℕ
fill_from i [] = []
fill_from i (b ∷ buf) = pat i ∷ fill_from (suc i) buf

unfoldable pub fill_pat : List ℕ → List ℕ
fill_pat buf = fill_from 0 buf

unfoldable pub check_from : String → ℕ → List ℕ → Result (Unit {0})
check_from what i [] = ok tt
check_from what i (b ∷ buf) =
    if b == pat i then check_from what (suc i) buf else err (invalid (bad_pattern what i b (pat i)))

unfoldable pub check_pat : String → List ℕ → Result (Unit {0})
check_pat what buf = check_from what 0 buf
