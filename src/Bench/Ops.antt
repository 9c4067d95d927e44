-- ===== src/Bench/Ops.antt =====
-- examples/urma_bench.rs: which jetty, which window and which moderation an op of a bandwidth pass
-- gets.
pub mod Rank
pub mod Windows
use urma_rs.Base.{
  ℕ, ◌+◌, ◌*◌, ◌/◌, ◌%◌, min, max, ◌==◌, ltb, leb, ◌&&◌, not, Bool, true, false, if◌then◌else◌,
}

pub data BwOp : Type 0 where
  read write : BwOp

abbrev pub bw_cq_mod_auto : ℕ
bw_cq_mod_auto = 100

-- `n` jetties take turns, each for `list` ops.
unfoldable pub bw_op_jetty : ℕ → ℕ → ℕ → ℕ
bw_op_jetty i n list = i / list % n

unfoldable pub bw_op_rank : ℕ → ℕ → ℕ → ℕ
bw_op_rank i n list = i / (list * n) * list + i % list

unfoldable pub bw_slot_off : ℕ → ℕ → ℕ → ℕ
bw_slot_off i size len = let slots = max (len / size) 1 in i % slots * size

-- `until` keeps the deadline; whether it has passed is read off the clock at each test.
pub data BwStop : Type 0 where
  ops : ℕ → BwStop
  until : BwStop

unfoldable pub stop_posting : BwStop → Bool → ℕ → Bool
stop_posting (ops n) late next = leb n next
stop_posting until late next = ltb 0 next && late

-- `flag.clamp(1, depth)`; no depth is 0.
unfoldable pub resolve_cq_mod : ℕ → ℕ → ℕ
resolve_cq_mod flag depth = if flag == 0 then min bw_cq_mod_auto depth else min (max flag 1) depth

-- `is_multiple_of` of a group size above 1.
unfoldable pub bw_tail_uncovered : ℕ → ℕ → Bool
bw_tail_uncovered posts cq_mod = ltb 1 cq_mod && not (posts % cq_mod == 0)

-- `(rank + 1).is_multiple_of(cq_mod)`.
unfoldable pub is_signaled : ℕ → ℕ → Bool
is_signaled rank cq_mod = (rank + 1) % cq_mod == 0
