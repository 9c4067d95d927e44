-- ===== src/Bench/Tcp/Pipe.antt =====
-- A connection that loses nothing, and what the two sides of the benchmark do on it.
use urma_rs.Base.{ℕ, ltb, List, [], ◌++◌, length, take, drop, if◌then◌else◌}
use urma_rs.Error.{ok, err, io}
use urma_rs.Bench.Tcp.{Stream, unexpected_eof}

-- The bytes that come in until the other side closes, and those that went out.
pub record Pipe : Type 0 where
  pub incoming : List ℕ
  pub outgoing : List ℕ

abbrev pub pipe : Stream Pipe
pipe = record {
  read_exact = λ n s.
      if ltb (length s.incoming) n
      then (err (io unexpected_eof), record s { incoming = [] })
      else (ok (take n s.incoming), record s { incoming = drop n s.incoming });
  write_all = λ bytes s. (ok tt, record s { outgoing = s.outgoing ++ bytes });
  set_nodelay = λ s. (ok tt, s);
}
