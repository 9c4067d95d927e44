-- ===== src/Tests/Rounds.antt =====
-- The two examples of two nodes, and the requests that are sent again.
use urma_rs.Base.{
  ◌<◌, ◌≡◌, ◌↔◌, refl, ltb, ◌==◌, Bool, true, false, [], ◌∷◌, none, some, length, arith,
  if◌then◌else◌,
}
use urma_rs.Error.{ok}
use urma_rs.Urma.Release.Scope.{Same}
use urma_rs.Urma.Cq.Laws.{answer, verdict}
use urma_rs.Common.Desc.{PeerDesc, default_desc}
use urma_rs.Common.Res.{UrmaRes}
use urma_rs.Common.Http.{Reply, not_connected, Http, Net, send, send_retry}
use urma_rs.Common.Http.Retry.{meaning, refused, send_retry-meaning}
use urma_rs.Pingpong
use urma_rs.Pingpong.{wait_cr, exchange_ping, echo_round}
use urma_rs.Pingpong.Client as Client
use urma_rs.Pingpong.Wait.{waited, wait_cr-verdict}
use urma_rs.Pingpong.Posts.{IsArmed, rounds-IsArmed}
use urma_rs.Pingpong.Release.{rounds-Same}
use urma_rs.Hello.{
  Request, Body, get_msg, json, plain, Node, Config, wait_info, read_peer, client_run,
}
use urma_rs.Hello.Published.{CreatesOnce, wait_info-CreatesOnce}
use urma_rs.Hello.Bye.{byes, client_run-bye}
use urma_rs.Tests.Library.{working, opened, empty, ctx, jetty, segment}

abbrev res : UrmaRes
res = record {
  ctx = ctx;
  cq = 0;
  jetty = jetty;
  buf = segment;
  seg_ctx = 1 ∷ [];
  rjetty = 2 ∷ [];
  urma = 0;
}

abbrev peer_desc : PeerDesc
peer_desc = record default_desc { seg_va = 4096; seg_len = 4096; seg_ctx = 1 ∷ []; rjetty = 2 ∷ [] }

-- The peer is up at the third request; its first answer has no descriptor yet.
abbrev late : Http Request Body
late sent q =
    if ltb (length sent) 2
    then not_connected
    else if length sent == 2
    then Reply.answer 503 (plain "descriptor not ready")
    else Reply.answer 200 (json peer_desc)

abbrev node : Bool → Net Request Node
node hook = record {
  world = empty;
  sent = [];
  local = record { res = none; desc = if hook then some default_desc else none };
}

abbrev cfg : Bool → Config
cfg hook = record { dev = 100 ∷ []; hook = hook; res_delay_ms = 0 }

send_retry-meaning_example : send_retry late 3 get_msg (node false) ≡ (
  meaning (late (refused late get_msg 2 (node false)).sent get_msg),
  send late get_msg (refused late get_msg 2 (node false)),
)
send_retry-meaning_example =
    send_retry-meaning late get_msg 3 2 (node false) (omega arith) (refl, (refl, tt)) (λ e. cc)

-- The record is there at the third poll.
wait_cr-verdict_example :
    (wait_cr working 0 7 opened).0 ≡ verdict 7 (answer working 0 (waited working 0 7 2 opened))
wait_cr-verdict_example = wait_cr-verdict working 0 7 2 opened (omega arith) (refl, (refl, tt)) refl

rounds-IsArmed_example :
    IsArmed (exchange_ping working res peer_desc opened).1.trace
    × IsArmed (echo_round working res (some peer_desc) opened).1.trace
rounds-IsArmed_example =
    rounds-IsArmed working res res peer_desc (some peer_desc) opened (omega arith, tt)

abbrev pings : Http Pingpong.Request Pingpong.Body
pings sent q = Reply.answer 200 (Pingpong.json peer_desc)

abbrev ping_node : Net Pingpong.Request (Unit {0})
ping_node = record { world = opened; sent = []; local = tt }

rounds-Same_example :
    Same opened (Client.client_run working pings 1 (some res) (1 ∷ []) ping_node).1.world
    × Same opened (echo_round working res (some peer_desc) opened).1
rounds-Same_example =
    rounds-Same working (record { strong = 2; value = record { raw = 10; urma = 0 } }) pings 1
      (some res) (1 ∷ []) ping_node res (some peer_desc) opened (omega arith)
      (λ r e. ground (arith, e)) refl

wait_info-CreatesOnce_example :
    CreatesOnce working late
      (cfg false)
      (node false)
      (wait_info working late (cfg false) 5 true (node false)).1
wait_info-CreatesOnce_example =
    wait_info-CreatesOnce working late (cfg false) 5 true (node false) refl refl

client_run-bye_example :
    (byes [] < byes (client_run working late (cfg true) 5 (node true)).1.sent)
    ↔ ((read_peer working late (cfg true) 5 (node true)).0 ≡ some (ok tt))
client_run-bye_example = client_run-bye working late (cfg true) 5 (node true) (omega arith)
