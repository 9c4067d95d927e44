-- ===== src/Tests/Hooks.antt =====
-- The hook transport of the lookup example, and a whole client over it.
use urma_rs.Base.{ℕ, ◌≡◌, refl, false, List, [], ◌∷◌, ◌++◌, some, replicate, arith}
use urma_rs.Error.{ok}
use urma_rs.Common.Message.{fill_msg}
use urma_rs.Common.Desc.{default_desc}
use urma_rs.Common.Http.{answer, Http, Net, send_retry, json_retry}
use urma_rs.Lookup.Master.{OwnerInfo}
use urma_rs.Lookup.Records.{
  record_text, decimal, decimal_from, copy_at, write_record, write_records, hook_record,
}
use urma_rs.Lookup.Hook.{TcpHookTransport, read_hook, init_hook, import_hook, hook_transport}
use urma_rs.Lookup.Hook.Composed.{read_hook-write_records}
use urma_rs.Lookup.Flow.{
  Transport, Request, Body, register, ready, done, get_record, ack, directory, bytes, nothing,
  ClientCfg, total_of, put_records, import_all, fetch_records, fetch_directory, register_records,
  run_client,
}
use urma_rs.Lookup.Flow.Complete.{HasRead, imported, run_client-HasRead}
use urma_rs.Tests.Library.{empty}

abbrev name : List ℕ
name = 65 ∷ []

abbrev owner : ℕ → ℕ → OwnerInfo
owner first cnt = record {
  name = name;
  first_record_id = first;
  record_cnt = cnt;
  desc = default_desc;
  peer_addr = 10 ∷ [];
  data_port = 7;
}

-- Records 3 and 4, and the answer to a request for record 4.
abbrev message : ℕ → List ℕ
unfolding fill_msg record_text decimal decimal_from
message rid = fill_msg (record_text rid name)

abbrev serves_4 : Http Request Body
serves_4 sent q = answer 200 (bytes (message 4))

abbrev node : Net Request TcpHookTransport
node = record {
  world = empty;
  sent = [];
  local = record { record_cnt = 1; my_first = 0; buf = replicate 128 0; stop = false; port = 9 };
}

read_hook-write_records_example :
    (read_hook serves_4 1 (owner 3 2) 4 node).0 ≡ some (ok (fill_msg (record_text 4 name)))
unfolding message write_records write_record copy_at hook_record record_text decimal decimal_from
    fill_msg
read_hook-write_records_example =
    read_hook-write_records serves_4 1 4 200 2 3 (owner 3 2) name (replicate 128 0)
      (message 3 ++ message 4) (message 4) node (omega arith) (omega arith) (omega arith)
      (omega arith) refl refl refl

-- A master with two clients, of which this one has record 0 and the other one records 1 and 2.
abbrev two_clients : Http Request Body
two_clients sent (register reg) = answer 200 (ack 0)
two_clients sent ready = answer 200 (directory (owner 0 1 ∷ owner 1 2 ∷ []))
two_clients sent done = answer 200 nothing
two_clients sent (get_record ip port rid) = answer 200 (bytes (replicate 64 rid))

abbrev cfg : ClientCfg
cfg = record { name = name; records = 1 }

abbrev got : List (List ℕ)
got = replicate 64 1 ∷ replicate 64 2 ∷ []

abbrev owners : List OwnerInfo
owners = owner 0 1 ∷ owner 1 2 ∷ []

abbrev transport : Transport TcpHookTransport (List ℕ)
transport = hook_transport (ok 9) two_clients

abbrev registered : Net Request TcpHookTransport
registered = (register_records transport two_clients cfg 1 node).1

run_client-HasRead_example :
    HasRead transport two_clients cfg 1 0 owners got
      (imported transport two_clients cfg 1 0 owners registered)
unfolding run_client register_records fetch_directory fetch_records import_all put_records
    json_retry send_retry hook_transport init_hook import_hook read_hook total_of write_records
    write_record copy_at record_text decimal decimal_from
run_client-HasRead_example =
    run_client-HasRead transport two_clients cfg 1 0 owners node got refl refl (omega arith)
      (omega arith) refl
