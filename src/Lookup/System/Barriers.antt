-- ===== src/Lookup/System/Barriers.antt =====
-- What the two barriers of the master guarantee its clients.
use urma_rs.Base.{
  length-replicate, ℕ, ◌≤◌, ◌<◌, ltb, List, [], ◌∷◌, some, ◌≡◌, sym, get_elem?, length, All, arith,
  subst, Bool-cases, inl, inr,
}
use urma_rs.Lookup.Master.{OwnerInfo, MasterState, reserve, push, entry_at, remove_at, owns}
use urma_rs.Lookup.Master
use urma_rs.Lookup.System.{
  Barrier, IsBarrier, System, return, m_ready, m_done, registering, acked, at_ready, reading,
  at_done, finished, Step, registers, pushes, calls_ready, gets_directory, calls_done, finishes,
  fails, Reach, start, next,
}
use urma_rs.Lookup.System.Stages.{reached, reached-le-length, reached_all, reached-replicate}
use urma_rs.Lookup.System.Counts.{IsCounted, Step-IsCounted}

-- A call of `wait` returns only once all clients have made theirs.
pub record IsGated (n : ℕ) (s : System) : Type 0 where
  pub ready_gate : 0 < s.server.ready.returned → n ≤ s.server.ready.called
  pub done_gate : 0 < s.server.done.returned → n ≤ s.server.done.called

abbrev pub Agrees : System → Type 0
Agrees s = All (λ (d : List OwnerInfo). d ≡ s.server.state.clients) s.sent

All-of_no_length : {A : Type 0} (P : A → Type 0) (xs : List A) → length xs ≡ 0 → All P xs
All-of_no_length P [] e = tt
All-of_no_length P (x ∷ xs) e = absurd (omega arith)

module _ (b : Barrier) (laws : IsBarrier b) (n : ℕ) where
  Step-IsGated : {s t : System} → Step b n s t → IsGated n s → IsGated n t
  unfolding reserve m_ready m_done return
  Step-IsGated {s} {t} (registers i reg addr m e on fits r q) v = ground arith
  Step-IsGated {s} {t} (pushes i j first m e r q) v = ground arith
  Step-IsGated {s} {t} (calls_ready i e on q) v = ground arith
  Step-IsGated {s} {t} (gets_directory i srv dir e r q) v =
      ground (arith, laws.blocks n s.server.ready.called)
  Step-IsGated {s} {t} (calls_done i e on q) v = ground arith
  Step-IsGated {s} {t} (finishes i srv e r q) v = ground (arith, laws.blocks n s.server.done.called)
  Step-IsGated {s} {t} (fails i x e work on q) v = ground arith

  -- Once a directory has been sent, no client is before its ready barrier.
  sent-at_ready :
      (s : System) (i x : ℕ)
      → IsCounted n s
      → IsGated n s
      → get_elem? s.stages i ≡ some x
      → x < at_ready
      → length s.sent ≡ 0
  sent-at_ready s i x v g e h = elim (Bool-cases (ltb 0 (length s.sent))) [
    | inl some_sent ↦
        let all : reached at_ready s.stages ≡ length s.stages = ground (
          arith,
          reached-le-length at_ready s.stages,
          v.answered,
          v.ready_returned,
          v.ready_called,
          v.size,
          g.ready_gate (ground arith),
        ) in
        absurd (omega (arith, reached_all at_ready s.stages i x all e))
    | inr none_sent ↦ ground arith
  ]

  Step-Agrees : {s t : System} → Step b n s t → IsCounted n s → IsGated n s → Agrees s → Agrees t
  unfolding reserve m_ready m_done return
  Step-Agrees {s} {t} (registers i reg addr m e on fits r q) v g a = subst Agrees (sym q) (
      subst (λ (cs : List OwnerInfo). All (λ (d : List OwnerInfo). d ≡ cs) s.sent) (ground arith) a)
  Step-Agrees {s} {t} (pushes i j first m e r q) v g a = subst Agrees (sym q) (
      All-of_no_length (λ (d : List OwnerInfo). d ≡ m.clients) s.sent
        (sent-at_ready s i registering v g e (omega arith)))
  Step-Agrees {s} {t} (calls_ready i e on q) v g a = subst Agrees (sym q) a
  Step-Agrees {s} {t} (gets_directory i srv dir e r q) v g a =
      let same : srv.state.clients ≡ s.server.state.clients = ground arith in
      subst Agrees (sym q) (
        ground arith,
        subst (λ (cs : List OwnerInfo). All (λ (d : List OwnerInfo). d ≡ cs) s.sent) (sym same) a,
      )
  Step-Agrees {s} {t} (calls_done i e on q) v g a = subst Agrees (sym q) a
  Step-Agrees {s} {t} (finishes i srv e r q) v g a =
      let same : srv.state.clients ≡ s.server.state.clients = ground arith in
      subst Agrees (sym q)
        (subst (λ (cs : List OwnerInfo). All (λ (d : List OwnerInfo). d ≡ cs) s.sent) (sym same) a)
  Step-Agrees {s} {t} (fails i x e work on q) v g a = subst Agrees (sym q) a

  Step-Master :
      {s t : System} → Step b n s t → Master.Reach s.server.state → Master.Reach t.server.state
  unfolding m_ready m_done return
  Step-Master {s} {t} (registers i reg addr m e on fits r q) h =
      subst (λ (u : System). Master.Reach u.server.state) (sym q)
        (Master.next h (Master.reserves reg addr fits r))
  Step-Master {s} {t} (pushes i j first m e r q) h =
      subst (λ (u : System). Master.Reach u.server.state) (sym q)
        (Master.next h (Master.pushes j first r))
  Step-Master {s} {t} (calls_ready i e on q) h =
      subst (λ (u : System). Master.Reach u.server.state) (sym q) h
  Step-Master {s} {t} (gets_directory i srv dir e r q) h =
      let same : srv.state ≡ s.server.state = ground arith in
      subst (λ (u : System). Master.Reach u.server.state) (sym q) (subst Master.Reach (sym same) h)
  Step-Master {s} {t} (calls_done i e on q) h =
      subst (λ (u : System). Master.Reach u.server.state) (sym q) h
  Step-Master {s} {t} (finishes i srv e r q) h =
      let same : srv.state ≡ s.server.state = ground arith in
      subst (λ (u : System). Master.Reach u.server.state) (sym q) (subst Master.Reach (sym same) h)
  Step-Master {s} {t} (fails i x e work on q) h =
      subst (λ (u : System). Master.Reach u.server.state) (sym q) h

  pub record IsSystem (s : System) : Type 0 where
    pub counted : IsCounted n s
    pub gated : IsGated n s
    pub agrees : Agrees s
    pub master : Master.Reach s.server.state

  pub Reach-IsSystem : {s : System} → Reach b n s → IsSystem s
  Reach-IsSystem start = record {
    counted = record {
      size = length-replicate n 0;
      pushed = sym (reached-replicate acked n (omega arith));
      reserved = sym (reached-replicate registering n (omega arith));
      ready_called = sym (reached-replicate at_ready n (omega arith));
      ready_returned = sym (reached-replicate reading n (omega arith));
      done_called = sym (reached-replicate at_done n (omega arith));
      done_returned = sym (reached-replicate finished n (omega arith));
      answered = sym (reached-replicate reading n (omega arith));
    };
    gated = record {
      ready_gate = λ h. absurd (omega arith);
      done_gate = λ h. absurd (omega arith);
    };
    agrees = tt;
    master = Master.start;
  }
  Reach-IsSystem (next r step) =
      let v = Reach-IsSystem r in
      record {
        counted = Step-IsCounted b n step v.counted;
        gated = Step-IsGated step v.gated;
        agrees = Step-Agrees step v.counted v.gated v.agrees;
        master = Step-Master step v.master;
      }
