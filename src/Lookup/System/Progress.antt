-- ===== src/Lookup/System/Progress.antt =====
-- The clients of the master do not block one another, and the master ends with them.
use urma_rs.Base.{
  ℕ, zero, suc, ◌<◌, ltb, ◌==◌, ◌||◌, true, false, length, List, [], ◌∷◌, some, ◌≡◌, refl, ap,
  get_elem?, set, arith, Bool-cases, inl, inr,
}
use urma_rs.Lookup.Master.{reserve}
use urma_rs.Lookup.System.{
  Barrier, IsBarrier, leaders, Waits, Server, System, call, return, m_ready, m_done, acked,
  at_ready, reading, at_done, finished, Step, registers, pushes, calls_ready, gets_directory,
  calls_done, finishes, fails, Reach, start, next,
}
use urma_rs.Lookup.System.Stages.{reached, reached-le-length, reached-le}
use urma_rs.Lookup.System.Counts.{IsCounted}
use urma_rs.Lookup.System.Barriers.{Reach-IsSystem}

-- Some client is at a stage where more clients have come to it than to the next one.
stage_of :
    (k : ℕ) (xs : List ℕ) → reached (suc k) xs < reached k xs → (i : ℕ) × (get_elem? xs i ≡ some k)
stage_of k [] h = absurd (omega arith)
stage_of k (x ∷ xs) h = elim (Bool-cases (x == k)) [
  | inl here ↦ (0, ground (arith, here))
  | inr there ↦ let (i, e) = stage_of k xs (ground (arith, there)) in (suc i, e)
]

get_elem?-below :
    {A : Type 0} (xs : List A) (i : ℕ) (x : A) → get_elem? xs i ≡ some x → i < length xs
get_elem?-below [] i x e = absurd (cc)
get_elem?-below (y ∷ xs) zero x e = omega arith
get_elem?-below (y ∷ xs) (suc i) x e = omega (arith, get_elem?-below xs i x e)

leaders_some : (b : Barrier) (n k : ℕ) → 0 < leaders b n k → 0 < k
leaders_some b n zero h = absurd (omega arith)
leaders_some b n (suc k) h = omega arith

module _ (b : Barrier) (laws : IsBarrier b) (n : ℕ) where
  IsDown-Step :
      {s t : System}
      → Step b n s t
      → s.server.shutdown ≡ ltb 0 (leaders b n s.server.done.returned)
      → t.server.shutdown ≡ ltb 0 (leaders b n t.server.done.returned)
  unfolding reserve m_ready m_done return
  IsDown-Step {s} {t} (registers i reg addr m e on fits r q) h = ground arith
  IsDown-Step {s} {t} (pushes i j first m e r q) h = ground arith
  IsDown-Step {s} {t} (calls_ready i e on q) h = ground arith
  IsDown-Step {s} {t} (gets_directory i srv dir e r q) h = ground arith
  IsDown-Step {s} {t} (calls_done i e on q) h = ground arith
  IsDown-Step {s} {t} (finishes i srv e r q) h = ground arith
  IsDown-Step {s} {t} (fails i x e work on q) h = ground arith

  pub Reach-shutdown_eq :
      {s : System} → Reach b n s → s.server.shutdown ≡ ltb 0 (leaders b n s.server.done.returned)
  Reach-shutdown_eq start = refl
  Reach-shutdown_eq (next r step) = IsDown-Step step (Reach-shutdown_eq r)

  -- With at least one client and barriers that keep what their documentation promises, in every
  -- reachable state, a master that shuts down has been asked for the end by all clients, and where
  -- all clients are over it shuts down.
  pub Reach-shutdown :
      {s : System}
      → 0 < n
      → Reach b n s
      → (s.server.shutdown ≡ true → reached at_done s.stages ≡ n)
        × (reached finished s.stages ≡ n → s.server.shutdown ≡ true)
  Reach-shutdown {s} some_client r =
      let v = Reach-IsSystem b laws n r in
      let down = Reach-shutdown_eq r in
      (
        λ h.
            let some_back : 0 < s.server.done.returned =
              leaders_some b n s.server.done.returned (ground (arith, down, h)) in
            omega (
              arith,
              v.gated.done_gate some_back,
              v.counted.done_called,
              v.counted.size,
              reached-le-length at_done s.stages,
            ),
        λ h.
            let e : s.server.done.returned ≡ n = omega (arith, v.counted.done_returned, h) in
            ground (arith, down, ap (leaders b n) e, laws.one_leader n some_client),
      )

  -- A barrier that all have come to lets one more through.
  return-opens :
      (w : Waits)
      → w.called ≡ n
      → w.returned < n
      → return b n w ≡ some (record w { returned = suc w.returned }, b.is_leader n w.returned)
  unfolding return
  return-opens w full left = ground (arith, ap (b.released n) full, laws.opens n)

  m_ready-opens :
      (srv : Server)
      → srv.ready.called ≡ n
      → srv.ready.returned < n
      → (srv' : Server) × (m_ready b n srv ≡ some (srv', srv.state.clients))
  unfolding m_ready
  m_ready-opens srv full left = (
    record srv { ready = record srv.ready { returned = suc srv.ready.returned } },
    ground (arith, return-opens srv.ready full left),
  )

  m_done-opens :
      (srv : Server)
      → srv.done.called ≡ n
      → srv.done.returned < n
      → (srv' : Server) × (m_done b n srv ≡ some srv')
  unfolding m_done
  m_done-opens srv full left = (
    record srv {
      done = record srv.done { returned = suc srv.done.returned };
      shutdown = b.is_leader n srv.done.returned || srv.shutdown;
    },
    ground (arith, return-opens srv.done full left),
  )

  at_first_barrier :
      (s : System)
      → IsCounted n s
      → reached at_ready s.stages ≡ n
      → reached reading s.stages < n
      → (t : System) × Step b n s t × (t.gone ≡ s.gone)
  at_first_barrier s v here left =
      let (i, at) = stage_of at_ready s.stages (omega arith) in
      let (srv, opens) =
        m_ready-opens s.server (omega (arith, v.ready_called)) (omega (arith, v.ready_returned)) in
      (
        record s {
          server = srv;
          stages = set s.stages i reading;
          sent = s.server.state.clients ∷ s.sent;
        },
        gets_directory i srv s.server.state.clients at opens refl,
        refl,
      )

  at_last_barrier :
      (s : System)
      → IsCounted n s
      → reached at_done s.stages ≡ n
      → reached finished s.stages < n
      → (t : System) × Step b n s t × (t.gone ≡ s.gone)
  at_last_barrier s v here left =
      let (i, at) = stage_of at_done s.stages (omega arith) in
      let (srv, opens) =
        m_done-opens s.server (omega (arith, v.done_called)) (omega (arith, v.done_returned)) in
      (
        record s { server = srv; stages = set s.stages i finished },
        finishes i srv at opens refl,
        refl,
      )

  -- With barriers that keep what their documentation promises, in every reachable state in which no
  -- client has failed, all clients have the ack and not all are over, some client can take a step
  -- that is not a failure: the barriers do not block them all.
  pub Reach-progress :
      {s : System}
      → Reach b n s
      → ((i : ℕ) → i < n → get_elem? s.gone i ≡ some false)
      → reached acked s.stages ≡ n
      → reached finished s.stages < n
      → (t : System) × Step b n s t × (t.gone ≡ s.gone)
  Reach-progress {s} r active all left =
      let v = (Reach-IsSystem b laws n r).counted in
      let in_range : (i x : ℕ) → get_elem? s.stages i ≡ some x → i < n =
        λ i x at. omega (arith, v.size, get_elem?-below s.stages i x at) in
      let le3 = reached-le at_ready acked s.stages (omega arith) in
      let le4 = reached-le reading at_ready s.stages (omega arith) in
      let le5 = reached-le at_done reading s.stages (omega arith) in
      elim (Bool-cases (ltb (reached at_ready s.stages) n)) [
        | inl before ↦
            let (i, at) = stage_of acked s.stages (ground arith) in
            (
              record s {
                server = record s.server { ready = call s.server.ready };
                stages = set s.stages i at_ready;
              },
              calls_ready i at (active i (in_range i acked at)) refl,
              refl,
            )
        | inr behind ↦ elim (Bool-cases (ltb (reached reading s.stages) n)) [
          | inl blocked ↦ at_first_barrier s v (ground arith) (ground arith)
          | inr through ↦ elim (Bool-cases (ltb (reached at_done s.stages) n)) [
            | inl busy ↦
                let (i, at) = stage_of reading s.stages (ground arith) in
                (
                  record s {
                    server = record s.server { done = call s.server.done };
                    stages = set s.stages i at_done;
                  },
                  calls_done i at (active i (in_range i reading at)) refl,
                  refl,
                )
            | inr over ↦ at_last_barrier s v (ground arith) left
          ]
        ]
      ]
