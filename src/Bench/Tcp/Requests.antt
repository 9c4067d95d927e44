-- ===== src/Bench/Tcp/Requests.antt =====
-- The requests of a tcp reader, and what the server makes of them.
use urma_rs.Base.{
  ℕ, zero, suc, ◌%◌, ◌^◌, ◌<◌, ◌≤◌, ◌≡◌, refl, ap, sym, ◌∙◌, subst, List, [], ◌∷◌, ◌++◌, length,
  take, drop, replicate, some, All, arith, length-append,
}
use mathlib.Core.List.{append_assoc, append-nil}
use urma_rs.Error.{ok}
use urma_rs.Cli.Reader.{le_bytes, le_val}
use urma_rs.Cli.Desc.RoundTrip.{length-le_bytes, le_val-le_bytes, take_list-append, drop-append}
use urma_rs.Bench.Tcp.{Stream, answer, serve_conn}
use urma_rs.Bench.Tcp.Pipe.{Pipe, pipe}

-- The requests for reads of these lengths, and the answers out of a buffer.
abbrev pub requests : List ℕ → List ℕ
requests [] = []
requests (n ∷ ns) = le_bytes 4 (n % 2 ^ 32) ++ requests ns

abbrev pub answers : List ℕ → List ℕ → List ℕ
answers buf [] = []
answers buf (n ∷ ns) = take n buf ++ answers buf ns

-- The reads of a sweep: a verify pass and the other rounds for each size.
abbrev pub reads : (warmup iters : ℕ) → List ℕ → List ℕ
reads warmup iters [] = []
reads warmup iters (n ∷ ns) =
    (n ∷ (replicate warmup n ++ replicate iters n)) ++ reads warmup iters ns

pub answers-append :
    (buf xs ys : List ℕ) → answers buf (xs ++ ys) ≡ answers buf xs ++ answers buf ys
answers-append buf [] ys = refl
answers-append buf (x ∷ xs) ys =
    rw (answers-append buf xs ys)
      (sym (append_assoc (take x buf) (answers buf xs) (answers buf ys)))

pub requests-append : (xs ys : List ℕ) → requests (xs ++ ys) ≡ requests xs ++ requests ys
requests-append [] ys = refl
requests-append (x ∷ xs) ys =
    rw (requests-append xs ys)
      (sym (append_assoc (le_bytes 4 (x % 2 ^ 32)) (requests xs) (requests ys)))

pub read_exact-append :
    (n : ℕ) (xs rest out : List ℕ)
    → length xs ≡ n
    → pipe.read_exact n (record { incoming = xs ++ rest; outgoing = out })
      ≡ (ok xs, record { incoming = rest; outgoing = out })
read_exact-append n xs rest out e =
    let first : take n (xs ++ rest) ≡ xs =
      subst (λ m. take m (xs ++ rest) ≡ xs) e (take_list-append xs rest) in
    let second : drop n (xs ++ rest) ≡ rest =
      subst (λ m. drop m (xs ++ rest) ≡ rest) e (drop-append xs rest) in
    ground (arith, e, first, second, length-append xs rest)

serve_conn-answered :
    {S : Type 0} (tcp : Stream S) (buf bytes : List ℕ) (fuel : ℕ) (s s1 s2 : S)
    → tcp.read_exact 4 s ≡ (ok bytes, s1)
    → le_val bytes ≤ length buf
    → tcp.write_all (take (le_val bytes) buf) s1 ≡ (ok tt, s2)
    → serve_conn tcp buf (suc fuel) s ≡ serve_conn tcp buf fuel s2
unfolding serve_conn answer
serve_conn-answered tcp buf bytes fuel s s1 s2 got fits sent = ground (arith, got, sent)

pub serve_conn-requests :
    (buf ns out : List ℕ) (fuel : ℕ)
    → length ns < fuel
    → length buf < 2 ^ 32
    → All (λ n. n ≤ length buf) ns
    → serve_conn pipe buf fuel (record { incoming = requests ns; outgoing = out })
      ≡ (some (ok tt), record { incoming = []; outgoing = out ++ answers buf ns })
unfolding serve_conn answer
serve_conn-requests buf ns out zero h small fit = absurd (omega arith)
serve_conn-requests buf [] out (suc fuel) h small fit = rw (append-nil out) refl
serve_conn-requests buf (n ∷ ns) out (suc fuel) h small fit =
    let got =
      read_exact-append 4 (le_bytes 4 (n % 2 ^ 32)) (requests ns) out
        (length-le_bytes 4 (n % 2 ^ 32)) in
    let back : le_val (le_bytes 4 (n % 2 ^ 32)) ≡ n =
      le_val-le_bytes 4 (n % 2 ^ 32) (omega arith) ∙ omega (arith, fit.0) in
    let s1 : Pipe = record { incoming = requests ns; outgoing = out } in
    let s2 : Pipe = record { incoming = requests ns; outgoing = out ++ take n buf } in
    let sent : pipe.write_all (take (le_val (le_bytes 4 (n % 2 ^ 32))) buf) s1 ≡ (ok tt, s2) =
      rw back refl in
    serve_conn-answered pipe buf (le_bytes 4 (n % 2 ^ 32)) fuel
      (record { incoming = requests (n ∷ ns); outgoing = out }) s1 s2 got
      (omega (arith, back, fit.0)) sent
    ∙ serve_conn-requests buf ns (out ++ take n buf) fuel (omega (arith, h)) small fit.1
    ∙ ap (λ b. (some (ok tt), record { incoming = []; outgoing = b }))
        (append_assoc out (take n buf) (answers buf ns))
