-- ===== src/Tests/Sweeps.antt =====
-- A sweep over tcp: a client that starts before its server.
use urma_rs.Base.{ℕ, ◌==◌, ◌≡◌, refl, List, [], ◌∷◌, none, some, replicate, arith, if◌then◌else◌}
use urma_rs.Error.{Result, ok, err, io}
use urma_rs.Cli.Hex.{trim}
use urma_rs.Bench.Sizes.{
  parse_part, parse_one_size, scaled, parse_usize, split_suffix, suffix, digits, limit_size, dedup,
  sort, insert_sorted, parse_sizes, parse_spec, parse_dots, parse_parts, sorted_sizes, split_dots,
  split_commas, resolve_buf_len, last,
}
use urma_rs.Bench.Pattern.{fill_pat}
use urma_rs.Bench.Tcp.{serve_conn, read_tcp_run, connection_refused}
use urma_rs.Bench.Tcp.Pipe.{Pipe, pipe}
use urma_rs.Bench.Tcp.Requests.{requests, answers, reads}
use urma_rs.Bench.Tcp.Served.{ConnectsAt, read_tcp_run-serve_conn}

-- "8,64".
abbrev spec : List ℕ
spec = b'8' ∷ b',' ∷ b'6' ∷ b'4' ∷ []

abbrev asked : List ℕ
asked = reads 1 2 (8 ∷ 64 ∷ [])

abbrev served : Pipe
served = record { incoming = answers (fill_pat (replicate 64 0)) asked; outgoing = [] }

abbrev second_try : ℕ → Result Pipe
second_try i = if i == 1 then ok served else err (io connection_refused)

second_try-ConnectsAt : ConnectsAt second_try 1 served
second_try-ConnectsAt = record {
  in_time = omega arith;
  refused = λ j below. (io connection_refused, ground arith);
  connected = refl;
}

spec-parsed : parse_sizes spec ≡ ok (8 ∷ 64 ∷ [])
unfolding parse_sizes parse_spec parse_dots parse_parts sorted_sizes split_dots split_commas trim
    parse_part parse_one_size scaled parse_usize split_suffix suffix digits limit_size dedup sort
    insert_sorted
spec-parsed = refl

spec-buffer : resolve_buf_len none (some spec) ≡ ok 64
unfolding resolve_buf_len last
spec-buffer = rw spec-parsed refl

read_tcp_run-serve_conn_example :
    (serve_conn pipe
        (fill_pat (replicate 64 0))
        9
        (record { incoming = requests asked; outgoing = [] })
      ≡ (
        some (ok tt),
        record { incoming = []; outgoing = answers (fill_pat (replicate 64 0)) asked },
      ))
    × (read_tcp_run pipe second_try 1 2 spec
        ≡ (ok tt, some (record { incoming = []; outgoing = requests asked })))
read_tcp_run-serve_conn_example =
    read_tcp_run-serve_conn second_try spec (8 ∷ 64 ∷ []) 1 2 64 9 1 (omega arith) spec-parsed
      spec-buffer (omega arith) second_try-ConnectsAt
