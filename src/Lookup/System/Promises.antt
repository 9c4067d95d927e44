-- ===== src/Lookup/System/Promises.antt =====
-- What the master promises its clients.
use urma_rs.Base.{
  ℕ, ◌≤◌, ◌<◌, ltb, List, [], ◌∷◌, some, ◌≡◌, refl, ap, sym, get_elem?, length, All, if◌then◌else◌,
  arith, subst, Bool-cases, inl, inr,
}
use urma_rs.Lookup.Master.{OwnerInfo}
use urma_rs.Lookup.Master.Ranges.{owners_of, total_records, Reach-owners_of}
use urma_rs.Lookup.System.{
  Barrier, IsBarrier, System, registering, acked, at_ready, at_done, finished, Reach,
}
use urma_rs.Lookup.System.Stages.{reached-le, reached-le-length, reached_all, reached_one}
use urma_rs.Lookup.System.Barriers.{IsSystem, Reach-IsSystem}

-- Each record below the total of a directory has one owner in it, and no other record has any.
abbrev pub IsDirectory : ℕ → ℕ → List OwnerInfo → Type 0
IsDirectory n rid d =
    (length d ≡ n) × (owners_of rid d ≡ (if ltb rid (total_records d) then 1 else 0))

All-same :
    {A : Type 0} (P : A → Type 0) (a : A) (xs : List A) → P a → All (λ (x : A). x ≡ a) xs → All P xs
All-same P a [] h e = tt
All-same P a (x ∷ xs) h e = (subst P (sym e.0) h, All-same P a xs h e.1)

no_length : {A : Type 0} (xs : List A) → length xs ≡ 0 → xs ≡ []
no_length [] e = refl
no_length (x ∷ xs) e = absurd (omega arith)

module _ (b : Barrier) (laws : IsBarrier b) (n : ℕ) where
  -- Where a `wait` of the first barrier has returned, all clients have registered.
  no_pending :
      (s : System)
      → IsSystem b laws n s
      → 0 < s.server.ready.returned
      → (length s.server.state.clients ≡ n) × (s.server.state.pending ≡ [])
  no_pending s v some_back =
      let k : length s.server.state.clients ≡ n = omega (
        arith,
        v.counted.pushed,
        v.counted.size,
        v.counted.ready_called,
        v.gated.ready_gate some_back,
        reached-le at_ready acked s.stages (omega arith),
        reached-le-length acked s.stages,
      ) in
      (
        k,
        no_length s.server.state.pending (
            omega (
              arith,
              k,
              v.counted.reserved,
              v.counted.size,
              reached-le-length registering s.stages,
            )),
      )

  -- With barriers that keep what their documentation promises, in every state that the master and
  -- its clients reach by interleaved steps, without a wrap of the counter, each directory that was
  -- sent is the whole list of entries: it has an entry for every client, each record below its
  -- total is owned by exactly one of them, and no other record by any.
  pub sent-IsDirectory :
      {s : System} (rid : ℕ)
      → Reach b n s
      → All (λ d. (d ≡ s.server.state.clients) × IsDirectory n rid d) s.sent
  sent-IsDirectory {s} rid r =
      let v = Reach-IsSystem b laws n r in
      elim (Bool-cases (ltb 0 s.server.ready.returned)) [
        | inl back ↦
            let (k, idle) = no_pending s v (ground arith) in
            let (one, counted) = Reach-owners_of rid v.master in
            All-same (λ d. (d ≡ s.server.state.clients) × IsDirectory n rid d)
              s.server.state.clients s.sent
              (
                refl,
                (k, ground (arith, one, counted, ap (owners_of rid) idle, ap total_records idle)),
              )
              v.agrees
        | inr none_back ↦
            subst (All (λ d. (d ≡ s.server.state.clients) × IsDirectory n rid d))
              (sym
                (no_length s.sent (ground (arith, v.counted.answered, v.counted.ready_returned))))
              tt
      ]

  -- With barriers that keep what their documentation promises, in every state that the master and
  -- its clients reach, where one client is over all have done their reads and asked for the end.
  pub finished-at_done :
      {s : System} (i j x : ℕ)
      → Reach b n s
      → get_elem? s.stages i ≡ some finished
      → get_elem? s.stages j ≡ some x
      → at_done ≤ x
  finished-at_done {s} i j x r e f =
      let v = Reach-IsSystem b laws n r in
      reached_all at_done s.stages j x
        (omega (
          arith,
          reached_one finished s.stages i finished e (omega arith),
          v.counted.size,
          v.counted.done_called,
          v.counted.done_returned,
          v.gated.done_gate (
              omega (
                arith,
                reached_one finished s.stages i finished e (omega arith),
                v.counted.done_returned,
              )),
          reached-le-length at_done s.stages,
        ))
        f
