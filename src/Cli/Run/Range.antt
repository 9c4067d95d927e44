-- ===== src/Cli/Run/Range.antt =====
-- Which ranges of the peer's segment `read` lets through.
use urma_rs.Base.{◌+◌, ◌^◌, ◌<◌, ◌≤◌, ◌≡◌, ◌↔◌, ◌⊎◌, arith}
use urma_rs.Error.{ok}
use urma_rs.Urma.Values.{SegDesc}
use urma_rs.Cli.Run.{ReadArgs, check_range}

-- For an offset and a length of 64 bits, the check of read passes exactly where the range lies in
-- the peer's segment, or where its end wraps around to a number that does.
pub check_range_lem :
    (a : ReadArgs) (seg : SegDesc)
    → a.offset < 2 ^ 64
    → a.len < 2 ^ 64
    → (check_range a seg ≡ ok tt) ↔ (
        (a.offset + a.len ≤ seg.len)
        ⊎ ((2 ^ 64 ≤ a.offset + a.len) × (a.offset + a.len ≤ 2 ^ 64 + seg.len)))
unfolding check_range
check_range_lem a seg h k = ground arith
