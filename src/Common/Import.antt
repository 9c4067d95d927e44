-- ===== src/Common/Import.antt =====
-- examples/common/mod.rs: `import_peer`, the import with its bounded retry.
use urma_rs.Base.{ℕ, zero, suc, ℤ, pos, ◌==ℤ◌, Bool, true, false}
use urma_rs.Error.{Error, ok, err, null}
use urma_rs.Ffi.Liburma.{Liburma, Event}
use urma_rs.Ffi.World.{Context, log}
use urma_rs.Ffi.Io.{Io}
use urma_rs.Urma.Modes.{ctp}
use urma_rs.Urma.Jetty.{token_value}
use urma_rs.Urma.Peer.{Peer, import_ctx}
use urma_rs.Common.Desc.{PeerDesc}

abbrev pub enoexec : ℤ
enoexec = pos 8

abbrev pub import_retries : ℕ
import_retries = 30

-- `CONNECT_RETRY_S`, in milliseconds.
abbrev pub connect_retry : ℕ
connect_retry = 1000

-- The pattern `Error::Null(_, ENOEXEC)`.
unfoldable pub is_enoexec : Error → Bool
is_enoexec (null what errno) = errno ==ℤ enoexec
is_enoexec _ = false

-- What one more failure leads to: `again` where the error allows a retry.
abbrev on_error : {A : Type 0} → Error → Io A → Io A
on_error e again w = elim (is_enoexec e) [
  | true ↦ again (log w (Event.sleep connect_retry))
  | false ↦ (err e, w)
]

module _ (p : Liburma) where
  -- The loop with the retries left, `IMPORT_RETRIES - attempt`.
  unfoldable pub import_loop : ℕ → Context → PeerDesc → Io Peer
  unfolding is_enoexec
  import_loop zero ctx desc w = import_ctx p ctx desc.seg_ctx desc.rjetty ctp token_value w
  import_loop (suc retries) ctx desc w =
      let (r, w') = import_ctx p ctx desc.seg_ctx desc.rjetty ctp token_value w in
      elim r [ ok peer ↦ (ok peer, w') | err e ↦ on_error e (import_loop retries ctx desc) w' ]

  unfoldable pub import_peer : Context → PeerDesc → Io Peer
  unfolding import_loop
  import_peer = import_loop import_retries
