-- ===== src/Lookup/System/Counts.antt =====
-- The counters of the master tell how far its clients have come.
use urma_rs.Base.{
  subst, sym, ℕ, zero, suc, ◌+◌, List, [], ◌∷◌, some, ◌≡◌, ap, length, arith, length-append,
}
use urma_rs.Lookup.Master.{OwnerInfo, reserve, entry_at, remove_at}
use urma_rs.Lookup.Master.Ranges.{push_cases}
use urma_rs.Lookup.System.{
  Barrier, System, return, m_ready, m_done, registering, acked, at_ready, reading, at_done,
  finished, Step, registers, pushes, calls_ready, gets_directory, calls_done, finishes, fails,
}
use urma_rs.Lookup.System.Stages.{reached, reached-set, length-set}

length-remove_at :
    (i : ℕ) (os : List OwnerInfo) (o : OwnerInfo)
    → entry_at i os ≡ some o
    → length os ≡ suc (length (remove_at i os))
unfolding entry_at remove_at
length-remove_at zero [] o e = cc
length-remove_at (suc i) [] o e = cc
length-remove_at zero (x ∷ os) o e = ground arith
length-remove_at (suc i) (x ∷ os) o e = omega (arith, length-remove_at i os o e)

-- The counters tell how far the clients have come.
pub record IsCounted (n : ℕ) (s : System) : Type 0 where
  pub size : length s.stages ≡ n
  pub pushed : length s.server.state.clients ≡ reached acked s.stages
  pub reserved :
      length s.server.state.clients + length s.server.state.pending ≡ reached registering s.stages
  pub ready_called : s.server.ready.called ≡ reached at_ready s.stages
  pub ready_returned : s.server.ready.returned ≡ reached reading s.stages
  pub done_called : s.server.done.called ≡ reached at_done s.stages
  pub done_returned : s.server.done.returned ≡ reached finished s.stages
  pub answered : length s.sent ≡ reached reading s.stages

module _ (b : Barrier) (n : ℕ) where
  pub Step-IsCounted : {s t : System} → Step b n s t → IsCounted n s → IsCounted n t
  unfolding reserve m_ready m_done return
  Step-IsCounted {s} {t} (registers i reg addr m e on fits r q) v = record {
    size = ground (arith, q, length-set s.stages i 1);
    pushed = ground (arith, q, reached-set 2 s.stages i 0 e);
    reserved = ground (arith, q, reached-set 1 s.stages i 0 e);
    ready_called = ground (arith, q, reached-set 3 s.stages i 0 e);
    ready_returned = ground (arith, q, reached-set 4 s.stages i 0 e);
    done_called = ground (arith, q, reached-set 5 s.stages i 0 e);
    done_returned = ground (arith, q, reached-set 6 s.stages i 0 e);
    answered = ground (arith, q, reached-set 4 s.stages i 0 e);
  }
  Step-IsCounted {s} {t} (pushes i j first m e r q) v =
      let (o, found, clients, pending, counter, ack) = push_cases s.server.state m j first r in
      record {
        size = ground (arith, q, length-set s.stages i 2);
        pushed = ground (
          arith,
          q,
          reached-set 2 s.stages i 1 e,
          ap (length {A = OwnerInfo}) clients,
          ap (length {A = OwnerInfo}) pending,
          length-append s.server.state.clients (o ∷ []),
          length-remove_at j s.server.state.pending o found,
        );
        reserved = ground (
          arith,
          q,
          reached-set 1 s.stages i 1 e,
          ap (length {A = OwnerInfo}) clients,
          ap (length {A = OwnerInfo}) pending,
          length-append s.server.state.clients (o ∷ []),
          length-remove_at j s.server.state.pending o found,
        );
        ready_called = ground (
          arith,
          q,
          reached-set 3 s.stages i 1 e,
          ap (length {A = OwnerInfo}) clients,
          ap (length {A = OwnerInfo}) pending,
          length-append s.server.state.clients (o ∷ []),
          length-remove_at j s.server.state.pending o found,
        );
        ready_returned = ground (
          arith,
          q,
          reached-set 4 s.stages i 1 e,
          ap (length {A = OwnerInfo}) clients,
          ap (length {A = OwnerInfo}) pending,
          length-append s.server.state.clients (o ∷ []),
          length-remove_at j s.server.state.pending o found,
        );
        done_called = ground (
          arith,
          q,
          reached-set 5 s.stages i 1 e,
          ap (length {A = OwnerInfo}) clients,
          ap (length {A = OwnerInfo}) pending,
          length-append s.server.state.clients (o ∷ []),
          length-remove_at j s.server.state.pending o found,
        );
        done_returned = ground (
          arith,
          q,
          reached-set 6 s.stages i 1 e,
          ap (length {A = OwnerInfo}) clients,
          ap (length {A = OwnerInfo}) pending,
          length-append s.server.state.clients (o ∷ []),
          length-remove_at j s.server.state.pending o found,
        );
        answered = ground (
          arith,
          q,
          reached-set 4 s.stages i 1 e,
          ap (length {A = OwnerInfo}) clients,
          ap (length {A = OwnerInfo}) pending,
          length-append s.server.state.clients (o ∷ []),
          length-remove_at j s.server.state.pending o found,
        );
      }
  Step-IsCounted {s} {t} (calls_ready i e on q) v = record {
    size = ground (arith, q, length-set s.stages i 3);
    pushed = ground (arith, q, reached-set 2 s.stages i 2 e);
    reserved = ground (arith, q, reached-set 1 s.stages i 2 e);
    ready_called = ground (arith, q, reached-set 3 s.stages i 2 e);
    ready_returned = ground (arith, q, reached-set 4 s.stages i 2 e);
    done_called = ground (arith, q, reached-set 5 s.stages i 2 e);
    done_returned = ground (arith, q, reached-set 6 s.stages i 2 e);
    answered = ground (arith, q, reached-set 4 s.stages i 2 e);
  }
  Step-IsCounted {s} {t} (gets_directory i srv dir e r q) v = record {
    size = ground (arith, q, length-set s.stages i 4);
    pushed = ground (arith, q, reached-set 2 s.stages i 3 e);
    reserved = ground (arith, q, reached-set 1 s.stages i 3 e);
    ready_called = ground (arith, q, reached-set 3 s.stages i 3 e);
    ready_returned = ground (arith, q, reached-set 4 s.stages i 3 e);
    done_called = ground (arith, q, reached-set 5 s.stages i 3 e);
    done_returned = ground (arith, q, reached-set 6 s.stages i 3 e);
    answered = ground (arith, q, reached-set 4 s.stages i 3 e);
  }
  Step-IsCounted {s} {t} (calls_done i e on q) v = record {
    size = ground (arith, q, length-set s.stages i 5);
    pushed = ground (arith, q, reached-set 2 s.stages i 4 e);
    reserved = ground (arith, q, reached-set 1 s.stages i 4 e);
    ready_called = ground (arith, q, reached-set 3 s.stages i 4 e);
    ready_returned = ground (arith, q, reached-set 4 s.stages i 4 e);
    done_called = ground (arith, q, reached-set 5 s.stages i 4 e);
    done_returned = ground (arith, q, reached-set 6 s.stages i 4 e);
    answered = ground (arith, q, reached-set 4 s.stages i 4 e);
  }
  Step-IsCounted {s} {t} (finishes i srv e r q) v = record {
    size = ground (arith, q, length-set s.stages i 6);
    pushed = ground (arith, q, reached-set 2 s.stages i 5 e);
    reserved = ground (arith, q, reached-set 1 s.stages i 5 e);
    ready_called = ground (arith, q, reached-set 3 s.stages i 5 e);
    ready_returned = ground (arith, q, reached-set 4 s.stages i 5 e);
    done_called = ground (arith, q, reached-set 5 s.stages i 5 e);
    done_returned = ground (arith, q, reached-set 6 s.stages i 5 e);
    answered = ground (arith, q, reached-set 4 s.stages i 5 e);
  }
  Step-IsCounted {s} {t} (fails i x e work on q) v = subst (IsCounted n) (sym q) (record {
    size = v.size;
    pushed = v.pushed;
    reserved = v.reserved;
    ready_called = v.ready_called;
    ready_returned = v.ready_returned;
    done_called = v.done_called;
    done_returned = v.done_returned;
    answered = v.answered;
  })
