-- ===== src/Common/Http.antt =====
-- examples/common/mod.rs: the HTTP helpers. The client of reqwest is not part of the repository: it
-- is a function from the requests sent so far and the next one to what becomes of that one. An
-- answer has a body of type `B`. The loops that retry forever have fuel, and `none` is a run that
-- does not return: it still retries when the fuel is used up, or it panics.
pub mod Retry
pub mod Quiet
use urma_rs.Base.{
  ℕ, zero, suc, leb, ltb, ◌&&◌, Bool, true, false, List, ◌∷◌, Option, none, some, if◌then◌else◌,
}
use urma_rs.Error.{Error, Result, ok, err, invalid, io, text, http_status}
use urma_rs.Ffi.Liburma.{Event}
use urma_rs.Ffi.World.{World, log}
use urma_rs.Ffi.Io.{Io}
use urma_rs.Common.Desc.{PeerDesc}
use urma_rs.Common.Import.{connect_retry}

-- What becomes of a request: a status and a body, a connection that is refused, or another error.
pub data Reply (B : Type 0) : Type 0 where
  answer : ℕ → B → Reply B
  not_connected : Reply B
  broken : ℕ → Reply B

abbrev pub Http : Type 0 → Type 0 → Type 0
Http Q B = List Q → Q → Reply B

-- What a client task changes: the library, the requests that it has sent (the latest first), and
-- the variables `L` of its node.
pub record Net (Q L : Type 0) : Type 0 where
  pub world : World
  pub sent : List Q
  pub local : L

abbrev pub NetIo : Type 0 → Type 0 → Type 0 → Type 0
NetIo Q L A = Net Q L → Option (Result A) × Net Q L

module _ {Q L A : Type 0} where
  abbrev pub pure : A → NetIo Q L A
  pure a n = (some (ok a), n)

  abbrev pub lift : Result A → NetIo Q L A
  lift r n = (some r, n)

  abbrev pub run_io : Io A → NetIo Q L A
  run_io m n = (some (m n.world).0, record n { world = (m n.world).1 })

  abbrev pub reads : (Net Q L → A) → NetIo Q L A
  reads f n = (some (ok (f n)), n)

module _ {Q L A B : Type 0} where
  abbrev pub continue : Option (Result A) → (A → NetIo Q L B) → NetIo Q L B
  continue none f n = (none, n)
  continue (some (ok a)) f n = f a n
  continue (some (err e)) f n = (some (err e), n)

  infixl 5 ◌>>=◌
  abbrev pub ◌>>=◌ : NetIo Q L A → (A → NetIo Q L B) → NetIo Q L B
  ◌>>=◌ m f n = continue (m n).0 f (m n).1

infixl 5 ◌>>◌
abbrev pub ◌>>◌ : {Q L B : Type 0} → NetIo Q L (Unit {0}) → NetIo Q L B → NetIo Q L B
m >> k = m >>= λ _. k

-- `is_success` of a status.
abbrev pub is_ok : ℕ → Bool
is_ok status = leb 200 status && ltb status 300

-- `http_err`.
abbrev pub http_err : ℕ → Error
http_err = io

module _ {Q L B : Type 0} (http : Http Q B) where
  abbrev pub send : Q → Net Q L → Net Q L
  send q n = record n { sent = q ∷ n.sent }

  abbrev pub paused : Net Q L → Net Q L
  paused n = record n { world = log n.world (Event.sleep connect_retry) }

  unfoldable pub send_retry : ℕ → Q → NetIo Q L B
  send_retry zero q n = (none, n)
  send_retry (suc fuel) q n = elim (http n.sent q) [
    | answer status body ↦
        (some (if is_ok status then ok body else err (invalid (http_status status))), send q n)
    | not_connected ↦ send_retry fuel q (paused (send q n))
    | broken kind ↦ (some (err (http_err kind)), send q n)
  ]

  -- `json_retry`, with the parser of the body that is wanted.
  unfoldable pub json_retry : {T : Type 0} → (B → Option T) → ℕ → Q → NetIo Q L T
  json_retry parse fuel q = do
    body ← send_retry fuel q
    elim (parse body) [ none ↦ lift (err (invalid (text "bad json"))) | some t ↦ pure t ]

  -- `exchange_desc`: the requests are `GET /info` and `POST /import` with the own descriptor.
  unfoldable pub exchange_desc :
      (B → Option PeerDesc) → Q → (PeerDesc → Q) → ℕ → PeerDesc → NetIo Q L PeerDesc
  exchange_desc parse get_info post_import fuel my = do
    peer ← json_retry parse fuel get_info
    send_retry fuel (post_import my) >>= λ _. pure peer
