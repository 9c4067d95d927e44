-- ===== src/Hello.antt =====
-- examples/urma_hello.rs: the handlers of the server, the client and its resources, which are made
-- when the peer first answers. What is printed and the bytes in the buffers are not modelled.
pub mod Fetch
pub mod Published
pub mod Bye
use urma_rs.Base.{
  ℕ, zero, suc, ltb, ◌==◌, ◌≡◌, ◌&&◌, Bool, true, false, not, String, is_none, List, [], ◌∷◌,
  Option, none, some, if◌then◌else◌,
}
use urma_rs.Error.{Error, Result, ok, err, invalid, text}
use urma_rs.Ffi.Liburma.{Liburma, Event}
use urma_rs.Ffi.World.{log}
use urma_rs.Common.Desc.{PeerDesc, check_loopback, default_desc}
use urma_rs.Common.Import.{connect_retry}
use urma_rs.Common.Res.{UrmaRes, create, desc}
use urma_rs.Common.Http.{
  Reply, answer, not_connected, broken, Http, Net, NetIo, ◌>>=◌, ◌>>◌, pure, lift, run_io, send,
  send_retry, http_err,
}
use urma_rs.Hello.Fetch.{fetch}

pub data Request : Type 0 where
  get_info get_msg post_bye post_abort : Request
  post_import : PeerDesc → Request

-- The bodies of the answers: the descriptor in JSON, bytes, or a text.
pub data Body : Type 0 where
  json : PeerDesc → Body
  bytes : List ℕ → Body
  plain : String → Body
  nothing : Body

abbrev pub parse : Body → Option PeerDesc
parse (json d) = some d
parse _ = none

-- The state that the handlers share; a permit of `notify_one` is a flag.
pub record SrvState : Type 0 where
  pub desc : Option PeerDesc
  pub msg : List ℕ
  pub done : Bool
  pub abort : Bool

-- `get_info`, `get_msg`, `post_import`, `post_bye` and `post_abort`: the answer and the new state.
unfoldable pub handle : Request → SrvState → (ℕ × Body) × SrvState
handle get_info st = elim st.desc [
  | some d ↦ ((200, json d), st)
  | none ↦ ((503, plain "descriptor not ready"), st)
]
handle get_msg st = ((200, bytes st.msg), st)
handle (post_import d) st = ((204, nothing), st)
handle post_bye st = ((204, nothing), record st { done = true })
handle post_abort st = ((204, nothing), record st { abort = true })

pub data SrvEnd : Type 0 where
  bye aborted stopped timeout : SrvEnd

-- The branches of the `select!` that may be taken: the permits, the early stop, the time.
pub data MayEnd (st : SrvState) (stop elapsed : Bool) : SrvEnd → Type 0 where
  on_done : st.done ≡ true → MayEnd st stop elapsed bye
  on_abort : st.abort ≡ true → MayEnd st stop elapsed aborted
  on_stop : stop ≡ true → MayEnd st stop elapsed stopped
  on_time : elapsed ≡ true → MayEnd st stop elapsed timeout

-- What `server_run` returns behind the HTTP server.
unfoldable pub end_of : SrvEnd → Result (Unit {0})
end_of aborted = err (invalid (text "peer aborted before finishing the read"))
end_of timeout = err (invalid (text "peer did not finish reading within 120s; it may have died"))
end_of bye = ok tt
end_of stopped = ok tt

-- The variables of `combined` that the client changes.
pub record Node : Type 0 where
  pub res : Option UrmaRes
  pub desc : Option PeerDesc

-- The start of `combined`: in hook mode the placeholder is published at once.
unfoldable pub init_node : Bool → Node
init_node hook = record { res = none; desc = if hook then some default_desc else none }

abbrev pub Client : Type 0 → Type 0
Client A = NetIo Request Node A

abbrev pub set_res : UrmaRes → Client (Unit {0})
set_res r n = (some (ok tt), record n { local = record n.local { res = some r } })

abbrev pub publish : PeerDesc → Client (Unit {0})
publish d n = (some (ok tt), record n { local = record n.local { desc = some d } })

abbrev pub pause : ℕ → Client (Unit {0})
pause ms n = (some (ok tt), record n { world = log n.world (Event.sleep ms) })

pub record Args : Type 0 where
  pub dev_name : Option (List ℕ)
  pub peer_ip : Option (List ℕ)
  pub name : Option (List ℕ)
  pub tcp_hook : Bool
  pub port : ℕ
  pub listen_port : Option ℕ

-- `Args::validate`: `none` where nothing is missing, and else the message.
unfoldable pub validate : Args → Option String
validate a =
    if not a.tcp_hook && is_none a.dev_name
    then some "URMA mode requires -d <device> (or use --tcp-hook)"
    else if is_none a.peer_ip
    then some "requires -i <peer_ip>"
    else none

-- What the client is told: the device, the mode, and `HELLO_RES_DELAY_MS`.
pub record Config : Type 0 where
  pub dev : List ℕ
  pub hook : Bool
  pub res_delay_ms : ℕ

module _ (p : Liburma) where
  -- `res.as_ref().map(|r| r.desc()).unwrap_or_default()`.
  unfoldable pub own_desc : Client PeerDesc
  own_desc n = elim n.local.res [ none ↦ pure default_desc n | some r ↦ run_io (desc p r) n ]

  unfoldable pub make_resources : Config → Client (Unit {0})
  make_resources cfg = if cfg.hook then pure tt else (do r ← run_io (create p cfg.dev); set_res r)

  unfoldable pub ensure_resources : Config → Client (Unit {0})
  ensure_resources cfg n = elim n.local.desc [
    | some d ↦ pure tt n
    | none ↦ (do make_resources cfg; d ← own_desc; publish d) n
  ]

  -- The pause behind the first reply.
  unfoldable pub settle : Config → Bool → Client (Unit {0})
  settle cfg first_reply =
      if first_reply && (ltb 0 cfg.res_delay_ms && not cfg.hook)
      then pause cfg.res_delay_ms
      else pure tt

  -- What follows the resources: the descriptor of a 200, and else a pause and `again`.
  unfoldable pub take_info : ℕ → Body → Client PeerDesc → Client PeerDesc
  take_info status body again = elim (status == 200) [
    | true ↦ elim (parse body) [ none ↦ lift (err (invalid (text "bad json"))) | some d ↦ pure d ]
    | false ↦ pause connect_retry >> again
  ]

  unfoldable pub replied : Config → Bool → ℕ → Body → Client PeerDesc → Client PeerDesc
  replied cfg first_reply status body again = do
    settle cfg first_reply
    ensure_resources cfg
    take_info status body again

  -- The loop of `client_run` that asks for the descriptor of the peer.
  unfoldable pub wait_info : Http Request Body → Config → ℕ → Bool → Client PeerDesc
  wait_info http cfg zero first_reply n = (none, n)
  wait_info http cfg (suc fuel) first_reply n = elim (http n.sent get_info) [
    | answer status body ↦
        replied cfg first_reply status body (wait_info http cfg fuel false) (send http get_info n)
    | not_connected ↦
        (pause connect_retry >> wait_info http cfg fuel first_reply) (send http get_info n)
    | broken kind ↦ lift (err (http_err kind)) (send http get_info n)
  ]

  -- The data plane: the READ, or the bytes by HTTP. `expect` of the resources in URMA mode, which
  -- `ensure_resources` has made, is the mode read off them.
  unfoldable pub read_msg : Http Request Body → ℕ → PeerDesc → PeerDesc → Client (Unit {0})
  read_msg http fuel my info n = elim n.local.res [
    | none ↦ (do body ← send_retry http fuel get_msg; pure tt) n
    | some r ↦ (do lift (check_loopback my info); run_io (fetch p r info)) n
  ]

  -- `client_run` up to the end of the read.
  unfoldable pub read_peer : Http Request Body → Config → ℕ → Client (Unit {0})
  read_peer http cfg fuel = do
    info ← wait_info http cfg fuel true
    my ← own_desc
    told ← send_retry http fuel (post_import my)
    read_msg http fuel my info

  unfoldable pub client_run : Http Request Body → Config → ℕ → Client (Unit {0})
  client_run http cfg fuel = do
    read_peer http cfg fuel
    left ← send_retry http fuel post_bye
    pure tt

  -- The client task of `combined`: whether it stops the own server, and, where it failed, the
  -- notice to the peer, whose answer is ignored.
  unfoldable pub client_task :
      Http Request Body
      → Config
      → ℕ
      → Net Request Node
      → Option (Result (Unit {0})) × Bool × Net Request Node
  client_task http cfg fuel n = elim (client_run http cfg fuel n).0 [
    | none ↦ (none, false, (client_run http cfg fuel n).1)
    | some r ↦ elim r [
      | ok u ↦ (some (ok u), false, (client_run http cfg fuel n).1)
      | err e ↦ (some (err e), true, send http post_abort (client_run http cfg fuel n).1)
    ]
  ]
