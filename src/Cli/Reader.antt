-- ===== src/Cli/Reader.antt =====
-- examples/urma_cli.rs: `Rd`, the reader over decoded bytes, and the numbers in them. The reader is
-- the list of the bytes that are left.
use urma_rs.Base.{
  ℕ, zero, suc, ◌+◌, ◌*◌, ◌/◌, ◌%◌, ltb, List, [], ◌∷◌, length, take as take_list, drop,
  if◌then◌else◌,
}
use urma_rs.Error.{Message, Result, ok, err, invalid, ◌>>=◌}

-- `Rd::take`, with the error of a short input.
unfoldable pub take : Message → ℕ → List ℕ → Result (List ℕ × List ℕ)
take short n b = if ltb (length b) n then err (invalid short) else ok (take_list n b, drop n b)

-- `to_le_bytes` of a number of `k` bytes, and `from_le_bytes`.
unfoldable pub le_bytes : ℕ → ℕ → List ℕ
le_bytes zero v = []
le_bytes (suc k) v = v % 256 ∷ le_bytes k (v / 256)

unfoldable pub le_val : List ℕ → ℕ
le_val [] = 0
le_val (b ∷ bytes) = b + 256 * le_val bytes

-- `Rd::u32` and `Rd::u64` are this at 4 and at 8 bytes.
unfoldable pub number : ℕ → Message → List ℕ → Result (ℕ × List ℕ)
unfolding take le_val
number k short b = do (head, tail) ← take short k b; ok (le_val head, tail)
