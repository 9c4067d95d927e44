-- ===== src/Pingpong/Client.antt =====
-- examples/urma_pingpong.rs: `client_run`.
use urma_rs.Base.{ℕ, List, Option, none, some}
use urma_rs.Ffi.Liburma.{Liburma}
use urma_rs.Common.Res.{UrmaRes, desc}
use urma_rs.Common.Desc.{check_loopback, default_desc}
use urma_rs.Common.Http.{Http, NetIo, ◌>>=◌, ◌>>◌, pure, lift, run_io, exchange_desc, send_retry}
use urma_rs.Pingpong.{Request, Body, get_info, post_import, post_msg, parse, exchange_ping}

-- `res_opt` hands out no resources exactly in hook mode, so the mode is read off them; the own
-- descriptor is all zeros then.
unfoldable pub client_run :
    {L : Type 0}
    → Liburma
    → Http Request Body
    → ℕ
    → Option UrmaRes
    → List ℕ
    → NetIo Request L (Unit {0})
client_run p http fuel none ping = do
  info ← exchange_desc http parse get_info post_import fuel default_desc
  body ← send_retry http fuel (post_msg ping)
  pure tt
client_run p http fuel (some res) ping = do
  my ← run_io (desc p res)
  info ← exchange_desc http parse get_info post_import fuel my
  lift (check_loopback my info)
  run_io (exchange_ping p res info)
