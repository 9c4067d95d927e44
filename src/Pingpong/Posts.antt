-- ===== src/Pingpong/Posts.antt =====
-- Each SEND of the two sides goes out with a receive buffer posted for the answer.
use urma_rs.Base.{
  ℕ, zero, suc, ◌+◌, ◌<◌, ◌≤◌, ◌≡◌, refl, ◌==ℤ◌, List, [], ◌∷◌, Option, if◌then◌else◌, arith,
}
use urma_rs.Error.{Error, Result, ok, err}
use urma_rs.Ffi.Consts.{urma_success}
use urma_rs.Ffi.Liburma.{Liburma, Event, Trace}
use urma_rs.Ffi.World.{World, Context, log}
use urma_rs.Ffi.Io.{Io, ◌>>=◌, continue, dropping, pure}
use urma_rs.Urma.Cq.{poll, poll_interval, poll_retries}
use urma_rs.Urma.Seg.{LocalSge, sge}
use urma_rs.Urma.Init.{drop_urma}
use urma_rs.Urma.Context.{drop_context}
use urma_rs.Urma.Jetty.{Jetty, token_value}
use urma_rs.Urma.Modes.{ctp}
use urma_rs.Urma.Peer.{Peer, drop_peer, import_ctx}
use urma_rs.Urma.Post.{post_send, post_recv}
use urma_rs.Common.Message.{msg_size, scratch_off}
use urma_rs.Common.Desc.{PeerDesc}
use urma_rs.Common.Import.{import_loop, import_peer, import_retries, connect_retry}
use urma_rs.Common.Res.{UrmaRes}
use urma_rs.Pingpong.{
  wait_cr_loop, wait_cr, send_pong, echo_round, send_ping, exchange_ping, info_of, srv_recv_ctx,
  srv_send_ctx, cli_recv_ctx, cli_send_ctx,
}

-- The receive requests that the library took, and the send requests made.
abbrev pub receives : Trace → ℕ
receives [] = 0
receives (Event.urma_post_jfr_wr jfr m st ∷ tr) =
    (if st ==ℤ urma_success then 1 else 0) + receives tr
receives (_ ∷ tr) = receives tr

abbrev pub sends : Trace → ℕ
sends [] = 0
sends (Event.urma_post_jetty_send_wr j m st ∷ tr) = suc (sends tr)
sends (_ ∷ tr) = sends tr

-- Before each send, more receives had been taken than sends made.
abbrev pub IsCredited : Trace → Type 0
IsCredited [] = Unit
IsCredited (Event.urma_post_jetty_send_wr j m st ∷ tr) = (sends tr < receives tr) × IsCredited tr
IsCredited (_ ∷ tr) = IsCredited tr

abbrev pub IsArmed : Trace → Type 0
IsArmed tr = (sends tr ≤ receives tr) × IsCredited tr

abbrev HasSpare : Trace → Type 0
HasSpare tr = (sends tr < receives tr) × IsCredited tr

-- The calls that matter here are the same.
abbrev Quiet : World → World → Type 0
Quiet w w' =
    (receives w'.trace ≡ receives w.trace)
    × (sends w'.trace ≡ sends w.trace)
    × (IsCredited w.trace → IsCredited w'.trace)

-- What holds at the end of a step and what follows it.
after :
    {A B : Type 0} (P : World → Type 0) (r : Result A) (f : A → Io B) (w : World)
    → ((e : Error) → r ≡ err e → P w)
    → ((x : A) → r ≡ ok x → P (f x w).1)
    → P (continue r f w).1
after P (ok x) f w h k = k x refl
after P (err e) f w h k = h e refl

wait_cr_loop-Quiet :
    (p : Liburma) (rounds cq expected : ℕ) (w : World)
    → Quiet w (wait_cr_loop p rounds cq expected w).1
unfolding wait_cr_loop poll
wait_cr_loop-Quiet p zero cq expected w = (refl, refl, λ h. h)
wait_cr_loop-Quiet p (suc rounds) cq expected w =
    let w1 = (poll p cq w).1 in
    ground (arith, wait_cr_loop-Quiet p rounds cq expected (log w1 (Event.sleep poll_interval)))

Quiet-IsArmed : (w w' : World) → Quiet w w' → IsArmed w.trace → IsArmed w'.trace
Quiet-IsArmed w w' (r, s, c) (h, k) = (omega arith, c k)

Quiet-HasSpare : (w w' : World) → Quiet w w' → HasSpare w.trace → HasSpare w'.trace
Quiet-HasSpare w w' (r, s, c) (h, k) = (omega arith, c k)

drop_peer-Quiet : (q : Peer) (w : World) → Quiet w (drop_peer q w)
unfolding drop_peer drop_context drop_urma
drop_peer-Quiet q w = ground arith

module _ (p : Liburma) where
  import_ctx-Quiet :
      (ctx : Context) (a b : List ℕ) (token : ℕ) (w : World)
      → Quiet w (import_ctx p ctx a b ctp token w).1
  unfolding import_ctx
  import_ctx-Quiet ctx a b token w = ground arith

  import_loop-Quiet :
      (retries : ℕ) (ctx : Context) (d : PeerDesc) (w : World)
      → Quiet w (import_loop p retries ctx d w).1
  unfolding import_loop
  import_loop-Quiet zero ctx d w = import_ctx-Quiet ctx d.seg_ctx d.rjetty token_value w
  import_loop-Quiet (suc retries) ctx d w =
      let w1 = (import_ctx p ctx d.seg_ctx d.rjetty ctp token_value w).1 in
      ground (
        arith,
        import_ctx-Quiet ctx d.seg_ctx d.rjetty token_value w,
        import_loop-Quiet retries ctx d (log w1 (Event.sleep connect_retry)),
      )

  post_recv-HasSpare :
      (j : Jetty) (sges : List LocalSge) (user_ctx : ℕ) (w : World)
      → IsArmed w.trace
      → let r = post_recv p j sges user_ctx w in
        IsArmed r.1.trace × (r.0 ≡ ok tt → HasSpare r.1.trace)
  unfolding post_recv
  post_recv-HasSpare j sges user_ctx w h = ground arith

  post_send-IsArmed :
      (j : Jetty) (q : Peer) (sges : List LocalSge) (user_ctx : ℕ) (w : World)
      → HasSpare w.trace
      → IsArmed (post_send p j q sges user_ctx w).1.trace
  unfolding post_send
  post_send-IsArmed j q sges user_ctx w h = ground arith

  wait_cr-Quiet : (cq expected : ℕ) (w : World) → Quiet w (wait_cr p cq expected w).1
  unfolding wait_cr
  wait_cr-Quiet cq expected w = wait_cr_loop-Quiet p poll_retries cq expected w

  wait_cr-IsArmed :
      (cq expected : ℕ) (w : World) → IsArmed w.trace → IsArmed (wait_cr p cq expected w).1.trace
  wait_cr-IsArmed cq expected w h =
      Quiet-IsArmed w (wait_cr p cq expected w).1 (wait_cr-Quiet cq expected w) h

  -- A SEND, and the wait for a completion, with a receive to spare.
  send_and_wait :
      (res : UrmaRes) (peer : Peer) (window : Result LocalSge) (cq send_ctx wait_ctx : ℕ)
      (w : World)
      → HasSpare w.trace
      → IsArmed
          (continue {0, 0} window
            (λ s. post_send p res.jetty peer (s ∷ []) send_ctx >>= λ u.
              wait_cr p cq wait_ctx >>= λ cr. pure tt)
            w).1.trace
  send_and_wait res peer (err e) cq send_ctx wait_ctx w h = (omega arith, h.1)
  send_and_wait res peer (ok s) cq send_ctx wait_ctx w h =
      let sent = post_send p res.jetty peer (s ∷ []) send_ctx w in
      let armed = post_send-IsArmed res.jetty peer (s ∷ []) send_ctx w h in
      after (λ v. IsArmed v.trace) sent.0 _ sent.1 (λ e k. armed)
        (λ u k.
          let waited = wait_cr-IsArmed cq wait_ctx sent.1 armed in
          after (λ v. IsArmed v.trace) (wait_cr p cq wait_ctx sent.1).0 _
            (wait_cr p cq wait_ctx sent.1).1 (λ e j. waited) (λ cr j. waited))

  send_ping-IsArmed :
      (res : UrmaRes) (peer : Peer) (w : World)
      → IsArmed w.trace
      → IsArmed (send_ping p res peer w).1.trace
  unfolding send_ping
  send_ping-IsArmed res peer w h =
      after (λ v. IsArmed v.trace) (sge res.buf scratch_off msg_size) _ w (λ e k. h)
        (λ s k.
          let got = post_recv p res.jetty (s ∷ []) cli_recv_ctx w in
          let spare = post_recv-HasSpare res.jetty (s ∷ []) cli_recv_ctx w h in
          after (λ v. IsArmed v.trace) got.0 _ got.1 (λ e j. spare.0)
            (λ u j.
              send_and_wait res peer (sge res.buf 0 msg_size) res.cq cli_send_ctx cli_recv_ctx got.1
                (spare.1 j)))

  scope-IsArmed :
      {A : Type 0} (peer : Peer) (m : Io A) (w : World)
      → IsArmed (m w).1.trace
      → IsArmed (dropping (drop_peer peer) m w).1.trace
  scope-IsArmed peer m w h =
      Quiet-IsArmed (m w).1 (drop_peer peer (m w).1) (drop_peer-Quiet peer (m w).1) h

  import_peer-Quiet : (ctx : Context) (d : PeerDesc) (w : World) → Quiet w (import_peer p ctx d w).1
  unfolding import_peer
  import_peer-Quiet = import_loop-Quiet import_retries

  exchange_ping-IsArmed :
      (res : UrmaRes) (info : PeerDesc) (w : World)
      → IsArmed w.trace
      → IsArmed (exchange_ping p res info w).1.trace
  unfolding exchange_ping
  exchange_ping-IsArmed res info w h =
      let made = import_peer p res.ctx info w in
      let armed = Quiet-IsArmed w made.1 (import_peer-Quiet res.ctx info w) h in
      after (λ v. IsArmed v.trace) made.0 _ made.1 (λ e k. armed)
        (λ peer k.
          scope-IsArmed peer (send_ping p res peer) made.1
            (send_ping-IsArmed res peer made.1 armed))

  -- The echo from the completion of the ping on.
  answer_ping-IsArmed :
      (res : UrmaRes) (imported : Option PeerDesc) (w : World)
      → HasSpare w.trace
      → IsArmed
          (continue {0, 0}
            (info_of imported)
            (λ info. import_peer p res.ctx info >>= λ peer.
              dropping (drop_peer peer) (send_pong p res peer))
            w).1.trace
  unfolding send_pong
  answer_ping-IsArmed res imported w h =
      after (λ v. IsArmed v.trace) (info_of imported) _ w (λ e k. (omega arith, h.1))
        (λ info k.
          let made = import_peer p res.ctx info w in
          let spare = Quiet-HasSpare w made.1 (import_peer-Quiet res.ctx info w) h in
          after (λ v. IsArmed v.trace) made.0 _ made.1 (λ e j. (omega arith, spare.1))
            (λ peer j. scope-IsArmed peer (send_pong p res peer) made.1 (
              send_and_wait res peer (sge res.buf 0 msg_size) res.cq srv_send_ctx srv_send_ctx
                made.1 spare)))

  echo_round-IsArmed :
      (res : UrmaRes) (imported : Option PeerDesc) (w : World)
      → IsArmed w.trace
      → IsArmed (echo_round p res imported w).1.trace
  unfolding echo_round
  echo_round-IsArmed res imported w h =
      after (λ v. IsArmed v.trace) (sge res.buf scratch_off msg_size) _ w (λ e k. h)
        (λ s k.
          let got = post_recv p res.jetty (s ∷ []) srv_recv_ctx w in
          let spare = post_recv-HasSpare res.jetty (s ∷ []) srv_recv_ctx w h in
          after (λ v. IsArmed v.trace) got.0 _ got.1 (λ e j. spare.0)
            (λ u j.
              let waited = wait_cr p res.cq srv_recv_ctx got.1 in
              let spare' =
                Quiet-HasSpare got.1 waited.1 (wait_cr-Quiet res.cq srv_recv_ctx got.1)
                  (spare.1 j) in
              after (λ v. IsArmed v.trace) waited.0 _ waited.1 (λ e i. (omega arith, spare'.1))
                (λ cr i. answer_ping-IsArmed res imported waited.1 spare')))

  -- From a trace in which no more SENDs were made than receive requests had been accepted, and each
  -- SEND had one to spare, a round of the client and one of the server, whatever the library
  -- answers, each leave a trace of that kind.
  pub rounds-IsArmed :
      (client server : UrmaRes) (info : PeerDesc) (imported : Option PeerDesc) (w : World)
      → IsArmed w.trace
      → IsArmed (exchange_ping p client info w).1.trace
        × IsArmed (echo_round p server imported w).1.trace
  rounds-IsArmed client server info imported w h =
      (exchange_ping-IsArmed client info w h, echo_round-IsArmed server imported w h)
