-- ===== src/Lookup/Hook.antt =====
-- examples/urma_lookup.rs: the two transports. The sockets of the hook transport belong to std: the
-- outcome of its bind is a parameter, a port or an error.
pub mod Composed
use urma_rs.Base.{
  ℕ, ◌==◌, Bool, true, false, not, List, [], ◌∷◌, Option, none, some, length, replicate,
  if◌then◌else◌,
}
use urma_rs.Error.{
  Error, Result, ok, err, invalid, owner_has_no_data_port, fetch_http_status, bad_body_len,
}
use urma_rs.Ffi.Liburma.{Liburma}
use urma_rs.Urma.Cq.{Completion}
use urma_rs.Common.Message.{msg_size}
use urma_rs.Common.Desc.{PeerDesc, default_desc}
use urma_rs.Common.Http.{
  answer, not_connected, broken, Http, Net, NetIo, ◌>>=◌, ◌>>◌, pure, lift, run_io, send, is_ok,
  http_err,
}
use urma_rs.Lookup.Master.{OwnerInfo}
use urma_rs.Lookup.Client.{UrmaTransport, desc, import, read_record, buf_len}
use urma_rs.Lookup.Flow.{Request, Body, get_record, bytes, Transport}

pub record TcpHookTransport : Type 0 where
  pub record_cnt : ℕ
  pub my_first : ℕ
  pub buf : List ℕ
  pub stop : Bool
  pub port : ℕ

-- `TcpHookTransport::new`.
unfoldable pub new_hook : ℕ → TcpHookTransport
unfolding buf_len
new_hook record_cnt = record {
  record_cnt = record_cnt;
  my_first = 0;
  buf = replicate buf_len 0;
  stop = false;
  port = 0;
}

abbrev pub bytes_of : Body → List ℕ
bytes_of (bytes b) = b
bytes_of _ = []

-- `init`, given what the bind answers; the service then holds the sender of its stop channel.
unfoldable pub init_hook : Result ℕ → NetIo Request TcpHookTransport (Unit {0})
init_hook (err e) n = (some (err e), n)
init_hook (ok port) n =
    (some (ok tt), record n { local = record n.local { port = port; stop = true } })

unfoldable pub import_hook : ℕ → OwnerInfo → NetIo Request TcpHookTransport (Unit {0})
import_hook idx o =
    if o.data_port == 0 then lift (err (invalid (owner_has_no_data_port o.name))) else pure tt

-- `read_record`: one request, without a retry.
unfoldable pub read_hook :
    Http Request Body → ℕ → OwnerInfo → ℕ → NetIo Request TcpHookTransport (List ℕ)
read_hook http idx o rid n =
    let q = get_record o.peer_addr o.data_port rid in
    elim (http n.sent q) [
      | answer status body ↦
          (if not (is_ok status)
              then lift (err (invalid (fetch_http_status rid status)))
              else if length (bytes_of body) == msg_size
              then pure (bytes_of body)
              else lift (err (invalid (bad_body_len rid (length (bytes_of body))))))
            (send http q n)
      | not_connected ↦ lift (err (http_err 0)) (send http q n)
      | broken kind ↦ lift (err (http_err kind)) (send http q n)
    ]

unfoldable pub hook_transport : Result ℕ → Http Request Body → Transport TcpHookTransport (List ℕ)
hook_transport bound http = record {
  init = init_hook bound;
  data_port = λ s. s.port;
  desc = pure default_desc;
  set_first = λ first s. record s { my_first = first };
  with_buf = λ f s. elim (f s.buf) [ none ↦ none | some buf ↦ some (record s { buf = buf }) ];
  import = import_hook;
  read_record = read_hook http;
}

-- The import of a URMA transport stores the table of peers.
abbrev import_urma : Liburma → ℕ → OwnerInfo → NetIo Request UrmaTransport (Unit {0})
import_urma p idx o n =
    (do tr ← run_io (import p n.local idx o); λ m. (some (ok tt), record m { local = tr })) n

-- `impl Transport for UrmaTransport`. The bytes of registered memory are not modelled: `with_buf`
-- leaves the state alone, and a read yields its completion.
unfoldable pub urma_transport : Liburma → Transport UrmaTransport Completion
urma_transport p = record {
  init = pure tt;
  data_port = λ s. 0;
  desc = λ n. run_io (desc p n.local) n;
  set_first = λ first s. s;
  with_buf = λ f s. some s;
  import = import_urma p;
  read_record = λ idx o rid n. run_io (read_record p n.local idx o rid) n;
}
