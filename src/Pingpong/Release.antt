-- ===== src/Pingpong/Release.antt =====
-- A round gives back what it takes, on both sides.
use urma_rs.Base.{
  ℕ, zero, suc, ◌<◌, ◌≡◌, refl, ap, ◌∙◌, [], ◌∷◌, List, some, none, Option, get_elem?, arith,
}
use urma_rs.Ffi.Liburma.{Liburma, Event}
use urma_rs.Ffi.World.{World, ContextInner, Rc, log}
use urma_rs.Urma.Cq.{poll, poll_interval, poll_retries}
use urma_rs.Urma.Seg.{LocalSge, sge}
use urma_rs.Urma.Jetty.{Jetty}
use urma_rs.Urma.Peer.{Peer}
use urma_rs.Urma.Post.{post_send, post_recv}
use urma_rs.Urma.Release.{held}
use urma_rs.Urma.Release.Scope.{Same, Same-trans, then-Same}
use urma_rs.Common.Message.{msg_size, scratch_off}
use urma_rs.Common.Desc.{PeerDesc}
use urma_rs.Common.Res.{UrmaRes}
use urma_rs.Common.Scope.{peer_scope}
use urma_rs.Common.Res.{desc}
use urma_rs.Common.Desc.{check_loopback, default_desc}
use urma_rs.Common.Http.{Http, Net, exchange_desc, send_retry}
use urma_rs.Common.Http.Quiet.{then_net-Same, send_retry-Same, exchange_desc-Same}
use urma_rs.Pingpong.Client.{client_run}
use urma_rs.Pingpong.{
  Request, Body, parse, get_info, post_import, post_msg, wait_cr_loop, wait_cr, send_pong,
  echo_round, send_ping, exchange_ping, info_of, srv_recv_ctx, srv_send_ctx, cli_recv_ctx,
  cli_send_ctx,
}

module _ (p : Liburma) where
  post_recv-Same :
      (j : Jetty) (sges : List LocalSge) (user_ctx : ℕ) (w : World)
      → Same w (post_recv p j sges user_ctx w).1
  unfolding post_recv held
  post_recv-Same j sges user_ctx w = ground arith

  post_send-Same :
      (j : Jetty) (q : Peer) (sges : List LocalSge) (user_ctx : ℕ) (w : World)
      → Same w (post_send p j q sges user_ctx w).1
  unfolding post_send held
  post_send-Same j q sges user_ctx w = ground arith

  wait_cr_loop-Same :
      (rounds cq expected : ℕ) (w : World) → Same w (wait_cr_loop p rounds cq expected w).1
  unfolding wait_cr_loop poll held
  wait_cr_loop-Same zero cq expected w = (refl, refl)
  wait_cr_loop-Same (suc rounds) cq expected w =
      let w1 = (poll p cq w).1 in
      ground (arith, wait_cr_loop-Same rounds cq expected (log w1 (Event.sleep poll_interval)))

  wait_cr-Same : (cq expected : ℕ) (w : World) → Same w (wait_cr p cq expected w).1
  unfolding wait_cr
  wait_cr-Same cq expected w = wait_cr_loop-Same poll_retries cq expected w

  send_pong-Same : (res : UrmaRes) (q : Peer) (w : World) → Same w (send_pong p res q w).1
  unfolding send_pong
  send_pong-Same res q w =
      then-Same (sge res.buf 0 msg_size) _ w w (refl, refl)
        (λ s.
          let sent = post_send p res.jetty q (s ∷ []) srv_send_ctx w in
          then-Same sent.0 _ w sent.1 (post_send-Same res.jetty q (s ∷ []) srv_send_ctx w) (λ u.
            let got = wait_cr p res.cq srv_send_ctx sent.1 in
            then-Same got.0 _ sent.1 got.1 (wait_cr-Same res.cq srv_send_ctx sent.1)
              (λ cr. (refl, refl))))

  send_ping-Same : (res : UrmaRes) (q : Peer) (w : World) → Same w (send_ping p res q w).1
  unfolding send_ping
  send_ping-Same res q w =
      then-Same (sge res.buf scratch_off msg_size) _ w w (refl, refl)
        (λ s.
          let room = post_recv p res.jetty (s ∷ []) cli_recv_ctx w in
          then-Same room.0 _ w room.1 (post_recv-Same res.jetty (s ∷ []) cli_recv_ctx w) (λ u.
            then-Same (sge res.buf 0 msg_size) _ room.1 room.1 (refl, refl)
              (λ t.
                let sent = post_send p res.jetty q (t ∷ []) cli_send_ctx room.1 in
                then-Same sent.0 _ room.1 sent.1
                  (post_send-Same res.jetty q (t ∷ []) cli_send_ctx room.1)
                  (λ v.
                    let got = wait_cr p res.cq cli_recv_ctx sent.1 in
                    then-Same got.0 _ sent.1 got.1 (wait_cr-Same res.cq cli_recv_ctx sent.1)
                      (λ cr. (refl, refl))))))

  module _ (b : Rc ContextInner) (live : 0 < b.strong) where
    exchange_ping-Same :
        (res : UrmaRes) (info : PeerDesc) (w : World)
        → get_elem? w.contexts res.ctx.inner ≡ some b
        → Same w (exchange_ping p res info w).1
    unfolding exchange_ping
    exchange_ping-Same res info w at =
        peer_scope p res.ctx info b live (send_ping p res) w at (λ q v at'. send_ping-Same res q v)

    echo_round-Same :
        (res : UrmaRes) (imported : Option PeerDesc) (w : World)
        → get_elem? w.contexts res.ctx.inner ≡ some b
        → Same w (echo_round p res imported w).1
    unfolding echo_round
    echo_round-Same res imported w at =
        then-Same (sge res.buf scratch_off msg_size) _ w w (refl, refl)
          (λ s.
            let room = post_recv p res.jetty (s ∷ []) srv_recv_ctx w in
            let quiet = post_recv-Same res.jetty (s ∷ []) srv_recv_ctx w in
            then-Same room.0 _ w room.1 quiet (λ u.
              let got = wait_cr p res.cq srv_recv_ctx room.1 in
              let quiet' = wait_cr-Same res.cq srv_recv_ctx room.1 in
              then-Same got.0 _ room.1 got.1 quiet' (λ cr.
                then-Same (info_of imported) _ got.1 got.1 (refl, refl)
                  (λ info.
                    peer_scope p res.ctx info b live (send_pong p res) got.1
                      (ap (λ (v : World). get_elem? v.contexts res.ctx.inner)
                          (Same-trans w room.1 got.1 quiet quiet').1
                        ∙ at)
                      (λ q v at'. send_pong-Same res q v)))))

    desc-Same : (res : UrmaRes) (w : World) → Same w (desc p res w).1
    unfolding desc
    desc-Same res w = (refl, refl)

    client_run-Same :
        {L : Type 0} (http : Http Request Body) (fuel : ℕ) (res : Option UrmaRes) (ping : List ℕ)
        (n : Net Request L)
        → ((r : UrmaRes) → res ≡ some r → get_elem? n.world.contexts r.ctx.inner ≡ some b)
        → Same n.world (client_run p http fuel res ping n).1.world
    unfolding client_run
    client_run-Same http fuel none ping n at =
        let got = exchange_desc http parse get_info post_import fuel default_desc n in
        then_net-Same got.0 _ n.world got.1
          (exchange_desc-Same http parse get_info post_import fuel default_desc n)
          (λ info.
            let told = send_retry http fuel (post_msg ping) got.1 in
            then_net-Same told.0 _ got.1.world told.1
              (send_retry-Same http fuel (post_msg ping) got.1) (λ body. (refl, refl)))
    client_run-Same http fuel (some r) ping n at =
        let w1 = (desc p r n.world).1 in
        let n1 = record n { world = w1 } in
        then_net-Same (some (desc p r n.world).0) _ n.world n1 (desc-Same r n.world) (λ my.
          let got = exchange_desc http parse get_info post_import fuel my n1 in
          let quiet = exchange_desc-Same http parse get_info post_import fuel my n1 in
          then_net-Same got.0 _ w1 got.1 quiet (λ info.
            then_net-Same (some (check_loopback my info)) _ got.1.world got.1 (refl, refl)
              (λ u. exchange_ping-Same r info got.1.world (
                ap (λ (v : World). get_elem? v.contexts r.ctx.inner)
                  (Same-trans n.world w1 got.1.world (desc-Same r n.world) quiet).1
                ∙ at r refl))))

  -- With a live context on each side, a whole run of the client of urma_pingpong and an echo of its
  -- server, whatever the answers, leave held what was held before, on success and on each failure.
  pub rounds-Same :
      {L : Type 0} (b : Rc ContextInner) (http : Http Request Body) (fuel : ℕ)
      (client : Option UrmaRes) (ping : List ℕ) (n : Net Request L) (server : UrmaRes)
      (imported : Option PeerDesc) (w : World)
      → 0 < b.strong
      → ((r : UrmaRes) → client ≡ some r → get_elem? n.world.contexts r.ctx.inner ≡ some b)
      → get_elem? w.contexts server.ctx.inner ≡ some b
      → Same n.world (client_run p http fuel client ping n).1.world
        × Same w (echo_round p server imported w).1
  rounds-Same b http fuel client ping n server imported w live at at' = (
    client_run-Same b live http fuel client ping n at,
    echo_round-Same b live server imported w at',
  )
