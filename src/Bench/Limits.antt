-- ===== src/Bench/Limits.antt =====
-- examples/urma_bench.rs: what `one_sided_run` checks and computes before it posts anything.
pub mod Laws
use urma_rs.Base.{
  ℕ, ◌+◌, ◌-◌, ◌*◌, ◌%◌, ◌^◌, min, max, not, ltb, leb, ◌==◌, ◌&&◌, ◌||◌, Bool, true, false, List,
  [], ◌∷◌, Option, none, some, if◌then◌else◌,
}
use urma_rs.Error.{Result, ok, err, invalid, text, post_list_range, depth_exceeds_ceiling}
use urma_rs.Ffi.Consts.{urma_max_priority}
use urma_rs.Urma.Modes.{TpType}
use urma_rs.Urma.Cap.{DeviceCap, priority_for}
use urma_rs.Urma.Jetty.{default_depth}
use urma_rs.Cli.Preflight.{ModeArgs}
use urma_rs.Bench.Ops.{BwOp}
use urma_rs.Bench.Pass.{bw_max_jetties}

-- 1 GiB.
abbrev pub bw_landing_cap : ℕ
bw_landing_cap = 2 ^ 30

-- `mode` without `--priority`, which is the field `priority`.
pub record OneSidedArgs : Type 0 where
  pub mode : ModeArgs
  pub priority : Option ℕ
  pub iters : ℕ
  pub warmup : ℕ
  pub sizes : List ℕ
  pub desc : List ℕ
  pub depth : ℕ
  pub duration : ℕ
  pub cq_mod : ℕ
  pub jetties : ℕ
  pub post_list : ℕ
  pub landing_cap : Option ℕ

-- The checks of the options among themselves, in their order.
unfoldable pub check_args : OneSidedArgs → Result (Unit {0})
check_args a =
    if a.depth == 0
    then err (invalid (text "--depth must be at least 1"))
    else if ltb 0 a.duration && (a.depth == 1)
    then err (
        invalid (
          text
            "--duration needs bandwidth mode: pass --depth > 1 (latency mode counts iterations, not seconds)"))
    else if ltb 0 a.cq_mod && (a.depth == 1)
    then err (
        invalid (
          text
            "--cq-mod needs bandwidth mode: pass --depth > 1 (a serialized op cannot skip completion records)"))
    else if (ltb 1 a.jetties || ltb 1 a.post_list) && (a.depth == 1)
    then err (
        invalid (
          text
            "--jetties/--post-list need bandwidth mode: pass --depth > 1 (latency mode is one serialized op at a time)"))
    else if (a.jetties == 0) || ltb bw_max_jetties a.jetties
    then err (invalid (text "--jetties must be 1..=64"))
    else if (a.post_list == 0) || ltb a.depth a.post_list
    then err (invalid (post_list_range a.depth))
    else ok tt

-- The smallest of the ceilings that are reported; 0 is none.
unfoldable pub least_reported : List ℕ → Option ℕ
least_reported [] = none
least_reported (c ∷ cs) =
    let rest = least_reported cs in
    if c == 0 then rest else elim rest [ none ↦ some c | some d ↦ some (min c d) ]

unfoldable pub depth_limit : DeviceCap → ℕ
depth_limit cap =
    elim (least_reported (cap.max_jfs_depth ∷ cap.max_jfc_depth ∷ cap.max_jfr_depth ∷ [])) [
      | none ↦ default_depth
      | some limit ↦ limit
    ]

unfoldable pub check_depth : ℕ → DeviceCap → Result (Unit {0})
check_depth depth cap =
    if ltb (depth_limit cap) depth
    then err (invalid (depth_exceeds_ceiling depth (depth_limit cap)))
    else ok tt

-- The depth of the queues, with room for the fences.
unfoldable pub queue_depth : OneSidedArgs → ℕ
queue_depth a = (max a.depth default_depth + a.jetties) % 2 ^ 32

-- The ceiling of one op: what is reported for it, else that of a message, else none.
unfoldable pub op_cap : DeviceCap → ℕ → ℕ
op_cap c v =
    if not (v == 0) then v else if not (c.max_msg_size == 0) then c.max_msg_size else 2 ^ 64 - 1

unfoldable pub size_limit : BwOp → DeviceCap → ℕ → ℕ
size_limit BwOp.read cap seg_len = min (op_cap cap cap.max_read_size) seg_len
size_limit BwOp.write cap seg_len =
    min (min (op_cap cap cap.max_read_size) (op_cap cap cap.max_write_size)) seg_len

-- `sizes.retain(...)`.
unfoldable pub retain : ℕ → List ℕ → List ℕ
retain limit [] = []
retain limit (s ∷ sizes) = let rest = retain limit sizes in if leb s limit then s ∷ rest else rest

unfoldable pub some_left : List ℕ → Result (List ℕ)
some_left [] = err (invalid (text "no size left after the device/segment limits"))
some_left (s ∷ sizes) = ok (s ∷ sizes)

-- `--landing-cap`, else 1 GiB.
unfoldable pub cap_of : OneSidedArgs → ℕ
cap_of a = elim a.landing_cap [ none ↦ bw_landing_cap | some n ↦ n ]

-- `size * depth`, no larger than a usize holds nor than the cap; one window in latency mode.
unfoldable pub landing_len : OneSidedArgs → ℕ → ℕ
landing_len a max_size =
    if ltb 1 a.depth then min (min (max_size * a.depth) (2 ^ 64 - 1)) (cap_of a) else max_size

-- `--priority`, else the slot of the device for the tp type, else 15.
unfoldable pub resolve_priority : Option ℕ → DeviceCap → TpType → ℕ
resolve_priority (some p) cap tp = p
resolve_priority none cap tp = elim (priority_for cap tp) [ none ↦ urma_max_priority | some p ↦ p ]
