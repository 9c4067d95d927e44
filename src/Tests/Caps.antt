-- ===== src/Tests/Caps.antt =====
-- Capabilities of devices, and windows of segments.
use urma_rs.Base.{arith, ℕ, ◌≡◌, ◌≤◌, ◌+◌, ◌↔◌, refl, List, [], ◌∷◌}
use urma_rs.Error.{ok}
use urma_rs.Urma.Modes.{ctp}
use urma_rs.Urma.Seg.{sge}
use urma_rs.Urma.Seg.Bounds.{sge-ok_iff}
use urma_rs.Urma.Cap.{from_raw, priority_for}
use urma_rs.Urma.Cap.Laws.{IsLowest, in_class, priority_for-IsLowest}
use urma_rs.Tests.Library.{raw_cap, segment, window}

priority_for-IsLowest_example :
    IsLowest (in_class ctp) raw_cap.priority_info (priority_for (from_raw raw_cap) ctp)
priority_for-IsLowest_example = priority_for-IsLowest raw_cap ctp refl (ground arith)

-- "bonding0".
abbrev dev : List ℕ
dev = 98 ∷ 111 ∷ 110 ∷ 100 ∷ 105 ∷ 110 ∷ 103 ∷ 48 ∷ []

sge-ok_iff_example : (sge segment 4032 64 ≡ ok (window 4032)) ↔ (
    (4032 + 64 ≤ 4096)
    × ((window 4032).tseg ≡ segment.tseg)
    × ((window 4032).addr ≡ segment.va + 4032)
    × ((window 4032).len ≡ 64))
sge-ok_iff_example = sge-ok_iff segment 4032 64 (window 4032) (omega arith)
