-- ===== src/Bench/Tcp.antt =====
-- examples/urma_bench.rs: the tcp subcommands. The sockets of std are not part of the repository:
-- a connection is a record of its operations on a state of type `S`. The counts that are only
-- printed and the times are left out.
pub mod Pipe
pub mod Requests
pub mod Rounds
pub mod Served
use urma_rs.Base.{
  ℕ, zero, suc, ltb, ◌==◌, ◌%◌, ◌^◌, Bool, true, false, List, [], ◌∷◌, length, take, replicate,
  Option, none, some,
}
use urma_rs.Error.{Error, Result, ok, err, invalid, io, exceeds_buffer}
use urma_rs.Cli.Reader.{le_bytes, le_val}
use urma_rs.Bench.Sizes.{bench_sizes, resolve_buf_len}
use urma_rs.Bench.Pattern.{fill_pat, check_pat}

-- `ErrorKind::UnexpectedEof` and `ErrorKind::ConnectionRefused`.
abbrev pub unexpected_eof : ℕ
unexpected_eof = 1

abbrev pub connection_refused : ℕ
connection_refused = 2

abbrev pub is_eof : Error → Bool
is_eof (io kind) = kind == unexpected_eof
is_eof _ = false

pub record Stream (S : Type 0) : Type 0 where
  pub read_exact : ℕ → S → Result (List ℕ) × S
  pub write_all : List ℕ → S → Result (Unit {0}) × S
  pub set_nodelay : S → Result (Unit {0}) × S

abbrev pub Tcp : Type 0 → Type 0 → Type 0
Tcp S A = S → Result A × S

module _ {S A : Type 0} where
  abbrev pub lift : Result A → Tcp S A
  lift r s = (r, s)

  abbrev pub pure : A → Tcp S A
  pure a s = (ok a, s)

module _ {S A B : Type 0} where
  abbrev pub continue : Result A → (A → Tcp S B) → Tcp S B
  continue (ok a) f s = f a s
  continue (err e) f s = (err e, s)

  infixl 5 ◌>>=◌
  abbrev pub ◌>>=◌ : Tcp S A → (A → Tcp S B) → Tcp S B
  ◌>>=◌ m f s = continue (m s).0 f (m s).1

infixl 5 ◌>>◌
abbrev pub ◌>>◌ : {S B : Type 0} → Tcp S (Unit {0}) → Tcp S B → Tcp S B
m >> k = m >>= λ _. k

module _ {S : Type 0} (tcp : Stream S) where
  -- The answer to one request, whose length is checked against the buffer.
  unfoldable pub answer : List ℕ → ℕ → Tcp S (Unit {0})
  answer buf n = elim (ltb (length buf) n) [
    | true ↦ lift (err (invalid (exceeds_buffer n (length buf))))
    | false ↦ tcp.write_all (take n buf)
  ]

  -- The inner loop of `serve_tcp_run`: one connection. `none` is a loop that still runs when the
  -- fuel is used up.
  unfoldable pub serve_conn : List ℕ → ℕ → S → Option (Result (Unit {0})) × S
  unfolding answer
  serve_conn buf zero s = (none, s)
  serve_conn buf (suc fuel) s =
      let (req, s1) = tcp.read_exact 4 s in
      elim req [
        | ok bytes ↦
            let (sent, s2) = answer buf (le_val bytes) s1 in
            elim sent [ ok u ↦ serve_conn buf fuel s2 | err e ↦ (some (err e), s2) ]
        | err e ↦ elim (is_eof e) [ true ↦ (some (ok tt), s1) | false ↦ (some (err e), s1) ]
      ]

  -- The outer loop, over what `accept` answers; it ends with an error only.
  unfoldable pub serve_all : List ℕ → ℕ → List (Result S) → Option (Result (Unit {0}))
  serve_all buf fuel [] = none
  serve_all buf fuel (err e ∷ accepted) = some (err e)
  serve_all buf fuel (ok s ∷ accepted) =
      let (quick, s1) = tcp.set_nodelay s in
      elim quick [
        | err e ↦ some (err e)
        | ok u ↦ elim (serve_conn buf fuel s1).0 [
          | none ↦ none
          | some r ↦ elim r [ err e ↦ some (err e) | ok v ↦ serve_all buf fuel accepted ]
        ]
      ]

  -- One round trip: the request, and so many bytes back.
  unfoldable pub round_trip : ℕ → Tcp S (List ℕ)
  round_trip size = do tcp.write_all (le_bytes 4 (size % 2 ^ 32)); tcp.read_exact size

  unfoldable pub round_trips : ℕ → ℕ → Tcp S (Unit {0})
  round_trips zero size = pure tt
  round_trips (suc n) size = do bytes ← round_trip size; round_trips n size

  -- One size: the verify pass, the rounds for warming up, and the timed ones.
  unfoldable pub read_size : (warmup iters size : ℕ) → Tcp S (Unit {0})
  read_size warmup iters size = do
    bytes ← round_trip size
    lift (check_pat "verify response" bytes)
    round_trips warmup size
    round_trips iters size

  unfoldable pub read_sizes : (warmup iters : ℕ) → List ℕ → Tcp S (Unit {0})
  read_sizes warmup iters [] = pure tt
  read_sizes warmup iters (size ∷ sizes) = do
    read_size warmup iters size
    read_sizes warmup iters sizes

-- `serve_tcp_run`, given what the bind and the calls of `accept` answer.
unfoldable pub serve_tcp_run :
    {S : Type 0}
    → Stream S
    → ℕ
    → Option ℕ
    → Option (List ℕ)
    → Result (Unit {0})
    → List (Result S)
    → Option (Result (Unit {0}))
serve_tcp_run tcp fuel buf_len sizes bound accepted = elim (resolve_buf_len buf_len sizes) [
  | err e ↦ some (err e)
  | ok len ↦ elim bound [
    | err e ↦ some (err e)
    | ok u ↦ serve_all tcp (fill_pat (replicate len 0)) fuel accepted
  ]
]

abbrev pub connect_tries : ℕ
connect_tries = 50

abbrev pub connect_interval : ℕ
connect_interval = 200

-- The loop of `connect_retry` from try `i` on, with the tries left, the last error and the pauses
-- made so far, in milliseconds. A connect that fails answers its error.
unfoldable pub connect_loop :
    {S : Type 0} → (ℕ → Result S) → (left i : ℕ) → Error → List ℕ → Result S × List ℕ
connect_loop connect zero i last pauses = (err last, pauses)
connect_loop connect (suc left) i last pauses = elim (connect i) [
  | ok s ↦ (ok s, pauses)
  | err e ↦ connect_loop connect left (suc i) e (connect_interval ∷ pauses)
]

unfoldable pub connect_retry : {S : Type 0} → (ℕ → Result S) → Result S × List ℕ
connect_retry connect = connect_loop connect connect_tries 0 (io connection_refused) []

-- `read_tcp_run`: the connection at the end, where there is one.
unfoldable pub read_tcp_run :
    {S : Type 0}
    → Stream S
    → (ℕ → Result S)
    → (warmup iters : ℕ) → List ℕ
    → Result (Unit {0}) × Option S
read_tcp_run tcp connect warmup iters spec = elim (bench_sizes iters spec) [
  | err e ↦ (err e, none)
  | ok sizes ↦ elim (connect_retry connect).0 [
    | err e ↦ (err e, none)
    | ok s ↦ let (r, s') = (tcp.set_nodelay >> read_sizes tcp warmup iters sizes) s in (r, some s')
  ]
]
