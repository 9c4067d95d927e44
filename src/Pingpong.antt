-- ===== src/Pingpong.antt =====
-- examples/urma_pingpong.rs: the echo of the server, the client, and what joins them. What is
-- printed and the bytes in the buffers are not modelled.
pub mod Client
pub mod Wait
pub mod Posts
pub mod Release
use urma_rs.Base.{
  ℕ, zero, suc, ◌==◌, is_none, String, Bool, true, false, not, ◌&&◌, List, [], ◌∷◌, Option, none,
  some, length, take, min, if◌then◌else◌,
}
use urma_rs.Error.{Error, Result, ok, err, invalid, text, bad_completion, poll_timeout}
use urma_rs.Ffi.Liburma.{Liburma, Event}
use urma_rs.Ffi.World.{World}
use urma_rs.Ffi.Io.{Io, ◌>>=◌, ◌>>◌, pure, fail, lift, emit, dropping}
use urma_rs.Urma.Cq.{Completion, is_success, poll, poll_retries, poll_interval}
use urma_rs.Urma.Seg.{sge}
use urma_rs.Urma.Peer.{Peer, drop_peer}
use urma_rs.Urma.Post.{post_send, post_recv}
use urma_rs.Common.Message.{msg_size, scratch_off, cstr_len}
use urma_rs.Common.Desc.{PeerDesc}
use urma_rs.Common.Import.{import_peer}
use urma_rs.Common.Res.{UrmaRes}

abbrev pub cli_send_ctx : ℕ
cli_send_ctx = 0xa001

abbrev pub cli_recv_ctx : ℕ
cli_recv_ctx = 0xa002

abbrev pub srv_recv_ctx : ℕ
srv_recv_ctx = 0xb001

abbrev pub srv_send_ctx : ℕ
srv_send_ctx = 0xb002

pub data Request : Type 0 where
  get_info : Request
  post_import : PeerDesc → Request
  post_msg : List ℕ → Request

-- The bodies of the answers: the descriptor in JSON, bytes, or anything else.
pub data Body : Type 0 where
  json : PeerDesc → Body
  bytes : List ℕ → Body

abbrev pub parse : Body → Option PeerDesc
parse (json d) = some d
parse (bytes b) = none

abbrev pub bytes_of : Body → List ℕ
bytes_of (json d) = []
bytes_of (bytes b) = b

-- The state that the handlers share; `done` is the permit that `notify_one` stores.
pub record SrvState : Type 0 where
  pub info : PeerDesc
  pub imported : Option PeerDesc
  pub pong : List ℕ
  pub done : Bool

-- `post_import`, and `post_msg` with the body of its answer.
unfoldable pub import_handler : PeerDesc → SrvState → SrvState
import_handler d st = record st { imported = some d }

unfoldable pub msg_handler : SrvState → List ℕ × SrvState
msg_handler st = (st.pong, record st { done = true })

-- The descriptor that `echo_round` reads behind the lock.
unfoldable pub info_of : Option PeerDesc → Result PeerDesc
info_of none = err (invalid (text "ping arrived before peer info"))
info_of (some d) = ok d

pub record Args : Type 0 where
  pub dev_name : Option (List ℕ)
  pub peer_ip : Option (List ℕ)
  pub name : Option (List ℕ)
  pub tcp_hook : Bool
  pub port : ℕ
  pub listen_port : Option ℕ

-- `Args::validate`: `none` where nothing is missing, and else the message.
unfoldable pub validate : Args → Option String
validate a =
    if not a.tcp_hook && is_none a.dev_name
    then some "URMA mode requires -d <device> (or use --tcp-hook)"
    else if is_none a.peer_ip
    then some "requires -i <peer_ip>"
    else none

-- `cli.and(srv)` behind the join of the two tasks.
unfoldable pub and : Result (Unit {0}) → Result (Unit {0}) → Result (Unit {0})
and (ok u) srv = srv
and (err e) srv = err e

-- The end of `server_run`: the error of the HTTP server goes before that of the echo.
unfoldable pub server_end : Result (Unit {0}) → Result (Unit {0}) → Result (Unit {0})
server_end (ok u) echo = echo
server_end (err e) echo = err e

module _ (p : Liburma) where
  -- The loop of `wait_cr`, with the rounds left. A success of another request is discarded.
  unfoldable pub wait_cr_loop : ℕ → ℕ → ℕ → Io Completion
  unfolding poll
  wait_cr_loop zero cq expected = fail (poll_timeout expected)
  wait_cr_loop (suc rounds) cq expected = do
    got ← poll p cq
    elim got [
      | none ↦ emit (Event.sleep poll_interval) >> wait_cr_loop rounds cq expected
      | some cr ↦ elim (is_success cr) [
        | false ↦ fail (bad_completion cr.status cr.user_ctx)
        | true ↦ elim (cr.user_ctx == expected) [
          | true ↦ pure cr
          | false ↦ emit (Event.sleep poll_interval) >> wait_cr_loop rounds cq expected
        ]
      ]
    ]

  unfoldable pub wait_cr : ℕ → ℕ → Io Completion
  wait_cr cq expected = wait_cr_loop poll_retries cq expected

  -- The pong: the SEND and its completion.
  unfoldable pub send_pong : UrmaRes → Peer → Io (Unit {0})
  send_pong res peer = do
    pong ← lift (sge res.buf 0 msg_size)
    post_send p res.jetty peer (pong ∷ []) srv_send_ctx
    cr ← wait_cr res.cq srv_send_ctx
    pure tt

  -- `echo_round`; `imported` is what stands behind the lock when the ping has come.
  unfoldable pub echo_round : UrmaRes → Option PeerDesc → Io (Unit {0})
  echo_round res imported = do
    window ← lift (sge res.buf scratch_off msg_size)
    post_recv p res.jetty (window ∷ []) srv_recv_ctx
    cr ← wait_cr res.cq srv_recv_ctx
    info ← lift (info_of imported)
    peer ← import_peer p res.ctx info
    dropping (drop_peer peer) (send_pong res peer)

  -- The data plane of the client: the receive buffer, the ping, the completion of the receive.
  unfoldable pub send_ping : UrmaRes → Peer → Io (Unit {0})
  send_ping res peer = do
    recv_sge ← lift (sge res.buf scratch_off msg_size)
    post_recv p res.jetty (recv_sge ∷ []) cli_recv_ctx
    send_sge ← lift (sge res.buf 0 msg_size)
    post_send p res.jetty peer (send_sge ∷ []) cli_send_ctx
    cr ← wait_cr res.cq cli_recv_ctx
    pure tt

  unfoldable pub exchange_ping : UrmaRes → PeerDesc → Io (Unit {0})
  exchange_ping res info = do
    peer ← import_peer p res.ctx info
    dropping (drop_peer peer) (send_ping res peer)
