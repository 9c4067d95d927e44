-- ===== src/Bench/Tcp/Rounds.antt =====
-- What a tcp reader asks for and gets, where it is answered out of a buffer.
use urma_rs.Base.{
  length-take, ℕ, zero, suc, ◌%◌, ◌^◌, ◌≤◌, ◌≡◌, refl, ap, sym, ◌∙◌, List, [], ◌∷◌, ◌++◌, length,
  take, replicate, All,
}
use mathlib.Core.List.{append_assoc, append-nil}
use urma_rs.Error.{Result, ok}
use urma_rs.Cli.Reader.{le_bytes}
use urma_rs.Bench.Pattern.{check_pat}
use urma_rs.Bench.Tcp.{Tcp, continue, lift, ◌>>=◌, round_trip, round_trips, read_size, read_sizes}
use urma_rs.Bench.Tcp.Pipe.{Pipe, pipe}
use urma_rs.Bench.Tcp.Requests.{
  requests, answers, reads, answers-append, requests-append, read_exact-append,
}

module _ (buf : List ℕ) where
  -- The client in front of the answers to its reads.
  abbrev pub facing : List ℕ → List ℕ → List ℕ → Pipe
  facing ns rest out = record { incoming = answers buf ns ++ rest; outgoing = out }

  -- A computation that makes these reads, and nothing else, and yields `a` where they are answered.
  abbrev pub Makes : {A : Type 0} → List ℕ → A → Tcp Pipe A → Type 0
  Makes ns a m =
      (rest out : List ℕ)
      → m (facing ns rest out) ≡ (ok a, record { incoming = rest; outgoing = out ++ requests ns })

  Makes-then :
      {A B : Type 0} (ns ms : List ℕ) (a : A) (b : B) (m : Tcp Pipe A) (k : A → Tcp Pipe B)
      → Makes ns a m
      → Makes ms b (k a)
      → Makes (ns ++ ms) b (m >>= k)
  Makes-then {A} {B} ns ms a b m k h j rest out =
      let split : facing (ns ++ ms) rest out ≡ facing ns (answers buf ms ++ rest) out =
        ap {B = Pipe} (λ bytes. record { incoming = bytes; outgoing = out })
          (ap (λ (bytes : List ℕ). bytes ++ rest) (answers-append buf ns ms)
            ∙ append_assoc (answers buf ns) (answers buf ms) rest) in
      let joined : (out ++ requests ns) ++ requests ms ≡ out ++ requests (ns ++ ms) =
        append_assoc out (requests ns) (requests ms)
        ∙ ap (λ (bytes : List ℕ). out ++ bytes) (sym (requests-append ns ms)) in
      ap (m >>= k) split
      ∙ ap (λ (r : Result A × Pipe). continue r.0 k r.1) (h (answers buf ms ++ rest) out)
      ∙ j rest (out ++ requests ns)
      ∙ ap {B = Result B × Pipe} (λ bytes. (ok b, record { incoming = rest; outgoing = bytes }))
          joined

  lift-Makes : {A : Type 0} (r : Result A) (a : A) → r ≡ ok a → Makes [] a (lift r)
  lift-Makes r a e rest out = rw (e, append-nil out) refl

  round_trip-Makes : (n : ℕ) → n ≤ length buf → Makes (n ∷ []) (take n buf) (round_trip pipe n)
  unfolding round_trip
  round_trip-Makes n fits rest out =
      let request = le_bytes 4 (n % 2 ^ 32) in
      ap {B = Result (List ℕ) × Pipe}
        (λ bytes. round_trip pipe n (record { incoming = bytes ++ rest; outgoing = out }))
        (append-nil (take n buf))
      ∙ read_exact-append n (take n buf) rest (out ++ request) (length-take n buf fits)
      ∙ ap {B = Result (List ℕ) × Pipe}
          (λ bytes. (ok (take n buf), record { incoming = rest; outgoing = out ++ bytes }))
          (sym (append-nil request))

  round_trips-Makes : (k n : ℕ) → n ≤ length buf → Makes (replicate k n) tt (round_trips pipe k n)
  unfolding round_trips
  round_trips-Makes zero n fits = lift-Makes (ok tt) tt refl
  round_trips-Makes (suc k) n fits =
      Makes-then (n ∷ []) (replicate k n) (take n buf) tt (round_trip pipe n) _
        (round_trip-Makes n fits) (round_trips-Makes k n fits)

  read_size-Makes :
      (warmup iters n : ℕ)
      → n ≤ length buf
      → check_pat "verify response" (take n buf) ≡ ok tt
      → Makes (n ∷ (replicate warmup n ++ replicate iters n)) tt (read_size pipe warmup iters n)
  unfolding read_size
  read_size-Makes warmup iters n fits right =
      let rounds =
        Makes-then (replicate warmup n) (replicate iters n) tt tt (round_trips pipe warmup n) _
          (round_trips-Makes warmup n fits) (round_trips-Makes iters n fits) in
      Makes-then (n ∷ []) (replicate warmup n ++ replicate iters n) (take n buf) tt
        (round_trip pipe n) _ (round_trip-Makes n fits)
        (Makes-then [] (replicate warmup n ++ replicate iters n) tt tt
          (lift (check_pat "verify response" (take n buf))) _
          (lift-Makes (check_pat "verify response" (take n buf)) tt right) rounds)

  pub read_sizes-Makes :
      (warmup iters : ℕ) (ns : List ℕ)
      → All (λ n. n ≤ length buf) ns
      → ((n : ℕ) → check_pat "verify response" (take n buf) ≡ ok tt)
      → Makes (reads warmup iters ns) tt (read_sizes pipe warmup iters ns)
  unfolding read_sizes
  read_sizes-Makes warmup iters [] fit right = lift-Makes (ok tt) tt refl
  read_sizes-Makes warmup iters (n ∷ ns) fit right =
      Makes-then (n ∷ (replicate warmup n ++ replicate iters n)) (reads warmup iters ns) tt tt
        (read_size pipe warmup iters n) _ (read_size-Makes warmup iters n fit.0 (right n))
        (read_sizes-Makes warmup iters ns fit.1 right)
