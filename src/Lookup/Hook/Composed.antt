-- ===== src/Lookup/Hook/Composed.antt =====
-- The hook transport of one client against the data service of another.
use urma_rs.Base.{ℕ, ◌+◌, ◌*◌, ◌^◌, ◌<◌, ◌≤◌, ◌≡◌, List, length, some, arith}
use urma_rs.Error.{ok}
use urma_rs.Common.Message.{fill_msg}
use urma_rs.Common.Http.{answer, Http, Net}
use urma_rs.Lookup.Master.{OwnerInfo}
use urma_rs.Lookup.Flow.{Request, Body, get_record, bytes}
use urma_rs.Lookup.Records.{record_text, write_records, hook_record}
use urma_rs.Lookup.Records.Served.{hook_record-write_records, length-fill_msg}
use urma_rs.Lookup.Hook.{TcpHookTransport, read_hook}

-- Where an owner wrote its records into a buffer with room for them, its ids do not exceed a u32,
-- the record asked for is one of them, and the request is answered by what the data service of the
-- owner returns, a read over the hook transport yields the message with the id of that record and
-- the name of its owner.
pub read_hook-write_records :
    (http : Http Request Body) (idx rid status cnt my_first : ℕ) (o : OwnerInfo)
    (name buf buf' body : List ℕ) (n : Net Request TcpHookTransport)
    → cnt * 64 ≤ length buf
    → my_first + cnt < 2 ^ 32
    → my_first ≤ rid
    → rid < my_first + cnt
    → write_records my_first name cnt 0 buf ≡ some buf'
    → hook_record (record { buf = buf'; my_first = my_first; record_cnt = cnt }) rid
      ≡ some (status, body)
    → http n.sent (get_record o.peer_addr o.data_port rid) ≡ answer status (bytes body)
    → (read_hook http idx o rid n).0 ≡ some (ok (fill_msg (record_text rid name)))
unfolding read_hook
read_hook-write_records http idx rid status cnt my_first o name buf buf' body n h fits lo hi wrote
      served reply =
    let (buf1, e, served') = hook_record-write_records my_first name cnt rid buf h fits in
    ground (arith, e, served', length-fill_msg (record_text rid name))
