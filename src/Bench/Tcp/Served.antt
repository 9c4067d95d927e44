-- ===== src/Bench/Tcp/Served.antt =====
-- The tcp reader and the tcp server of one sweep fit together.
use urma_rs.Base.{
  length-replicate, ℕ, zero, suc, ◌+◌, ◌^◌, ◌<◌, ◌≤◌, ◌≡◌, refl, ap, sym, ◌∙◌, subst, List, [], ◌∷◌,
  ◌++◌, length, take, replicate, none, some, All, All-append, arith,
}
use mathlib.Core.List.{append-nil}
use urma_rs.Error.{Error, Result, ok, err, io, Ensures}
use urma_rs.Bench.Sizes.{parse_sizes, bench_sizes, resolve_buf_len}
use urma_rs.Bench.Sizes.Laws.{resolve_buf_len-largest, resolve_buf_len-fits}
use urma_rs.Bench.Pattern.{fill_from, fill_pat, check_pat}
use urma_rs.Bench.Pattern.Laws.{check_pat-fill_pat, refill}
use urma_rs.Bench.Tcp.{
  serve_conn, read_sizes, read_tcp_run, connect_retry, connect_loop, connect_tries,
  connect_interval, connection_refused,
}
use urma_rs.Bench.Tcp.Pipe.{Pipe, pipe}
use urma_rs.Bench.Tcp.Requests.{requests, answers, reads, serve_conn-requests}
use urma_rs.Bench.Tcp.Rounds.{read_sizes-Makes}

take-fill_from : (n i : ℕ) (buf : List ℕ) → take n (fill_from i buf) ≡ fill_from i (take n buf)
unfolding fill_from
take-fill_from zero i buf = refl
take-fill_from (suc n) i [] = refl
take-fill_from (suc n) i (b ∷ buf) = rw (take-fill_from n (suc i) buf) refl

check_pat-take :
    (n : ℕ) (buf : List ℕ) → check_pat "verify response" (take n (fill_pat buf)) ≡ ok tt
unfolding fill_pat
check_pat-take n buf =
    let e = take-fill_from n 0 buf in
    (check_pat-fill_pat "verify response" (take n (fill_pat buf))).1
      (e ∙ sym (refill 0 0 (take n buf)) ∙ ap (fill_from 0) (sym e))

length-fill_from : (i : ℕ) (buf : List ℕ) → length (fill_from i buf) ≡ length buf
unfolding fill_from
length-fill_from i [] = refl
length-fill_from i (b ∷ buf) = omega (arith, length-fill_from (suc i) buf)

All-replicate : (P : ℕ → Type 0) (k n : ℕ) → P n → All P (replicate k n)
All-replicate P zero n h = tt
All-replicate P (suc k) n h = (h, All-replicate P k n h)

All-reads :
    (P : ℕ → Type 0) (warmup iters : ℕ) (ns : List ℕ) → All P ns → All P (reads warmup iters ns)
All-reads P warmup iters [] h = tt
All-reads P warmup iters (n ∷ ns) h =
    All-append P (n ∷ (replicate warmup n ++ replicate iters n)) (reads warmup iters ns)
      (
        h.0,
        All-append P (replicate warmup n) (replicate iters n) (All-replicate P warmup n h.0)
            (All-replicate P iters n h.0),
      )
      (All-reads P warmup iters ns h.1)

Ensures_ok : {A : Type 0} (P : A → Type 0) (r : Result A) (a : A) → r ≡ ok a → Ensures P r → P a
Ensures_ok P r a e h = subst (Ensures P) e h

-- The first try that succeeds, within the tries left.
connect_loop-first :
    {S : Type 0} (connect : ℕ → Result S) (left i k : ℕ) (last : Error) (pauses : List ℕ) (s : S)
    → k < left
    → ((j : ℕ) → j < k → (e : Error) × (connect (i + j) ≡ err e))
    → connect (i + k) ≡ ok s
    → (connect_loop connect left i last pauses).0 ≡ ok s
unfolding connect_loop
connect_loop-first connect zero i k last pauses s h fails up = absurd (omega arith)
connect_loop-first connect (suc left) i zero last pauses s h fails up =
    let here : connect i ≡ ok s = ap connect (omega arith) ∙ up in ground (arith, here)
connect_loop-first connect (suc left) i (suc k) last pauses s h fails up =
    let (e, down) = fails 0 (omega arith) in
    let here : connect i ≡ err e = ap connect (omega arith) ∙ down in
    ground (
      arith,
      here,
      connect_loop-first connect left (suc i) k e (connect_interval ∷ pauses) s (omega (arith, h))
          (λ j below.
            let (e', down') = fails (suc j) (omega (arith, below)) in
            (e', ap connect (omega arith) ∙ down'))
          (ap connect (omega arith) ∙ up),
    )

module _ (connect : ℕ → Result Pipe) (k : ℕ) (s : Pipe) where
  -- The first k tries fail, and the next one leads to `s`.
  pub record ConnectsAt : Type 0 where
    pub in_time : k < connect_tries
    pub refused : (j : ℕ) → j < k → (e : Error) × (connect j ≡ err e)
    pub connected : connect k ≡ ok s

  read_tcp_run-read_sizes :
      (spec sizes : List ℕ) (warmup iters : ℕ) (s' : Pipe)
      → ConnectsAt
      → 0 < iters
      → parse_sizes spec ≡ ok sizes
      → read_sizes pipe warmup iters sizes s ≡ (ok tt, s')
      → read_tcp_run pipe connect warmup iters spec ≡ (ok tt, some s')
  unfolding read_tcp_run bench_sizes connect_retry
  read_tcp_run-read_sizes spec sizes warmup iters s' c some_iters parsed told = ground (
    arith,
    parsed,
    told,
    connect_loop-first connect connect_tries 0 k (io connection_refused) [] s c.in_time
        (λ j below. let (e, down) = c.refused j below in (e, ap connect (omega arith) ∙ down))
        (ap connect (omega arith) ∙ c.connected),
  )

-- With the same sizes on both sides, at least one timed round and fuel for one turn more than there
-- are reads, on connections that lose nothing: the server turns the requests of the whole sweep
-- into the answers out of its buffer and ends well when the client closes; and a client that gets a
-- connection at one of its tries and is sent those answers passes every comparison, ends well, and
-- has sent exactly those requests.
pub read_tcp_run-serve_conn :
    (connect : ℕ → Result Pipe) (spec sizes : List ℕ) (warmup iters len fuel k : ℕ)
    → let ns = reads warmup iters sizes in
      let buf = fill_pat (replicate len 0) in
      0 < iters
      → parse_sizes spec ≡ ok sizes
      → resolve_buf_len none (some spec) ≡ ok len
      → length ns < fuel
      → ConnectsAt connect k (record { incoming = answers buf ns; outgoing = [] })
      → (serve_conn pipe buf fuel (record { incoming = requests ns; outgoing = [] })
          ≡ (some (ok tt), record { incoming = []; outgoing = answers buf ns }))
        × (read_tcp_run pipe connect warmup iters spec
            ≡ (ok tt, some (record { incoming = []; outgoing = requests ns })))
unfolding fill_pat
read_tcp_run-serve_conn connect spec sizes warmup iters len fuel k some_iters parsed room enough
      up =
    let buf = fill_pat (replicate len 0) in
    let sized : length buf ≡ len = length-fill_from 0 (replicate len 0) ∙ length-replicate len 0 in
    let all_fit : All (λ n. n ≤ len) sizes =
      Ensures_ok (All (λ n. n ≤ len)) (parse_sizes spec) sizes parsed (
        Ensures_ok (λ l. Ensures (All (λ n. n ≤ l)) (parse_sizes spec))
          (resolve_buf_len none (some spec)) len room (resolve_buf_len-largest spec)) in
    let fit : All (λ n. n ≤ length buf) sizes =
      subst (λ l. All (λ n. n ≤ l) sizes) (sym sized) all_fit in
    let small : len < 2 ^ 32 =
      Ensures_ok (λ l. l < 2 ^ 32) (resolve_buf_len none (some spec)) len room
        (resolve_buf_len-fits spec) in
    let ns = reads warmup iters sizes in
    let told =
      read_sizes-Makes buf warmup iters sizes fit (λ n. check_pat-take n (replicate len 0)) [] [] in
    (
      serve_conn-requests buf ns [] fuel enough (omega (arith, sized, small))
          (All-reads (λ n. n ≤ length buf) warmup iters sizes fit),
      read_tcp_run-read_sizes connect k (record { incoming = answers buf ns; outgoing = [] }) spec
          sizes warmup iters (record { incoming = []; outgoing = requests ns }) up some_iters parsed
          (ap {B = Result (Unit {0}) × Pipe}
              (λ bytes.
                read_sizes pipe warmup iters sizes (record { incoming = bytes; outgoing = [] }))
              (sym (append-nil (answers buf ns)))
            ∙ told),
    )
