-- ===== src/Lookup/System/Stuck.antt =====
-- A client that fails holds all the others at the last barrier.
use urma_rs.Base.{
  ℕ, ◌<◌, ltb, true, false, length, some, ◌≡◌, get_elem?, arith, Bool-cases, inl, inr,
}
use urma_rs.Lookup.System.{Barrier, IsBarrier, System, at_done, finished, Reach}
use urma_rs.Lookup.System.Stages.{reached_all, reached, reached-le-length}
use urma_rs.Lookup.System.Halted.{Reach-IsHalted}
use urma_rs.Lookup.System.Barriers.{IsSystem, Reach-IsSystem}
use urma_rs.Lookup.System.Progress.{Reach-shutdown_eq}

module _ (b : Barrier) (laws : IsBarrier b) (n : ℕ) where
  -- Where one client is before the last barrier, not all have called it.
  short_of_all :
      (s : System) (i x : ℕ)
      → IsSystem b laws n s
      → get_elem? s.stages i ≡ some x
      → x < at_done
      → s.server.done.called < n
  short_of_all s i x v at short = elim (Bool-cases (ltb s.server.done.called n)) [
    | inl less ↦ ground (arith, less)
    | inr full ↦
        let all : reached at_done s.stages ≡ length s.stages = ground (
          arith,
          full,
          v.counted.done_called,
          v.counted.size,
          reached-le-length at_done s.stages,
        ) in
        absurd (omega (arith, short, reached_all at_done s.stages i x all at))
  ]

  -- With barriers that keep what their documentation promises, in every reachable state in which a
  -- client has failed, no client is over and the master does not shut down.
  pub Reach-stuck :
      {s : System} (i : ℕ)
      → Reach b n s
      → get_elem? s.gone i ≡ some true
      → (reached finished s.stages ≡ 0) × (s.server.shutdown ≡ false)
  Reach-stuck {s} i r failed =
      let v = Reach-IsSystem b laws n r in
      let (x, at, work) = Reach-IsHalted b n r i failed in
      let short : x < at_done = ground (arith, work) in
      let closed : s.server.done.called < n = short_of_all s i x v at short in
      let none_back : s.server.done.returned ≡ 0 =
        elim (Bool-cases (ltb 0 s.server.done.returned)) [
          | inl back ↦ absurd (omega (arith, closed, v.gated.done_gate (ground (arith, back))))
          | inr none ↦ ground (arith, none)
        ] in
      (
        omega (arith, v.counted.done_returned, none_back),
        ground (arith, Reach-shutdown_eq b laws n r, none_back),
      )
