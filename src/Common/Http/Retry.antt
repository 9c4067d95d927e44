-- ===== src/Common/Http/Retry.antt =====
-- What a request that is retried returns.
use urma_rs.Base.{ℕ, zero, suc, ◌<◌, ◌≡◌, ◌≢◌, some, none, if◌then◌else◌, arith, Option}
use urma_rs.Error.{Result, ok, err, invalid, http_status}
use urma_rs.Common.Http.{
  Reply, answer, not_connected, broken, Http, Net, send, paused, send_retry, is_ok, http_err,
}

-- What the reply to a request means, where it is not a refused connection.
abbrev pub meaning : {B : Type 0} → Reply B → Option (Result B)
meaning (answer status body) =
    some (if is_ok status then ok body else err (invalid (http_status status)))
meaning not_connected = none
meaning (broken kind) = some (err (http_err kind))

module _ {Q L B : Type 0} (http : Http Q B) (q : Q) where
  -- After `k` refused connections, each followed by a pause.
  abbrev pub refused : ℕ → Net Q L → Net Q L
  refused zero n = n
  refused (suc k) n = refused k (paused http (send http q n))

  abbrev pub IsDown : ℕ → Net Q L → Type 0
  IsDown zero n = Unit
  IsDown (suc k) n = (http n.sent q ≡ not_connected) × IsDown k (paused http (send http q n))

  -- With fuel for more tries than the first k, which find the connection refused, while the next
  -- one does not, send_retry returns what the reply to that one means, after k pauses and k + 1
  -- requests.
  pub send_retry-meaning :
      (fuel k : ℕ) (n : Net Q L)
      → k < fuel
      → IsDown k n
      → http (refused k n).sent q ≢ not_connected
      → send_retry http fuel q n ≡ (meaning (http (refused k n).sent q), send http q (refused k n))
  unfolding send_retry
  send_retry-meaning zero k n h down up = absurd (omega arith)
  send_retry-meaning (suc fuel) zero n h down up = ground arith
  send_retry-meaning (suc fuel) (suc k) n h down up =
      ground
        (arith, send_retry-meaning fuel k (paused http (send http q n)) (omega arith) down.1 up)
