-- ===== src/Urma/Seg/Bounds.antt =====
-- The bounds of local windows.
use urma_rs.Base.{ℕ, ◌+◌, ◌^◌, ◌≤◌, ◌<◌, ◌≡◌, ◌↔◌, arith}
use urma_rs.Error.{ok}
use urma_rs.Urma.Seg.{RegisteredSeg, LocalSge, sge}

-- The registered memory lies in the address space.
abbrev pub IsRegion : RegisteredSeg → Type 0
IsRegion s = s.va + s.len < 2 ^ 64

-- For a registered range inside the 64-bit address space, a window is granted exactly where it lies
-- inside the segment; it then belongs to that segment and begins at the offset, without a wrap.
pub sge-ok_iff :
    (s : RegisteredSeg) (off len : ℕ) (l : LocalSge)
    → IsRegion s
    → (sge s off len ≡ ok l)
      ↔ ((off + len ≤ s.len) × (l.tseg ≡ s.tseg) × (l.addr ≡ s.va + off) × (l.len ≡ len))
unfolding sge
sge-ok_iff s off len l region = ground arith
