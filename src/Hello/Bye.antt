-- ===== src/Hello/Bye.antt =====
-- The peer is told that it may free its memory once the read is over, and not before.
use urma_rs.Base.{
  ℕ, zero, suc, ◌+◌, ◌<◌, ◌≤◌, ◌≡◌, ◌↔◌, refl, ◌∙◌, Bool, true, false, List, [], ◌∷◌, Option, none,
  some, inl, inr, arith,
}
use urma_rs.Error.{Result, ok, err}
use urma_rs.Ffi.Liburma.{Liburma}
use urma_rs.Common.Desc.{PeerDesc}
use urma_rs.Common.Http.{Http, Net, continue, send, send_retry, paused}
use urma_rs.Hello.{
  Request, Body, get_info, get_msg, post_bye, post_abort, post_import, Node, Config, Client,
  own_desc, ensure_resources, make_resources, settle, take_info, replied, wait_info, read_msg,
  read_peer, client_run,
}
use urma_rs.Hello.Published.{Reply-cases, pause_at}

-- How often the peer has been told.
abbrev pub byes : List Request → ℕ
byes [] = 0
byes (post_bye ∷ qs) = suc (byes qs)
byes (_ ∷ qs) = byes qs

abbrev is_bye : Request → ℕ
is_bye q = byes (q ∷ [])

abbrev Untold : Net Request Node → Net Request Node → Type 0
Untold n n' = byes n'.sent ≡ byes n.sent

then-Untold :
    {A B : Type 0} (r : Option (Result A)) (f : A → Client B) (n m : Net Request Node)
    → Untold n m
    → ((a : A) → Untold m (f a m).1)
    → Untold n (continue r f m).1
then-Untold none f n m h k = h
then-Untold (some (ok a)) f n m h k = k a ∙ h
then-Untold (some (err e)) f n m h k = h

module _ (http : Http Request Body) where
  send_retry-Untold :
      (fuel : ℕ) (q : Request) (n : Net Request Node)
      → is_bye q ≡ 0
      → Untold n (send_retry http fuel q n).1
  unfolding send_retry
  send_retry-Untold zero q n h = refl
  send_retry-Untold (suc fuel) q n h =
      ground (arith, send_retry-Untold fuel q (paused http (send http q n)), byes-send q n.sent h)
    where
      byes-send : (x : Request) (qs : List Request) → is_bye x ≡ 0 → byes (x ∷ qs) ≡ byes qs
      byes-send get_info qs e = refl
      byes-send get_msg qs e = refl
      byes-send post_bye qs e = absurd (omega arith)
      byes-send post_abort qs e = refl
      byes-send (post_import d) qs e = refl

  send_retry-more :
      (fuel : ℕ) (n : Net Request Node)
      → byes n.sent ≤ byes (send_retry http fuel post_bye n).1.sent
  unfolding send_retry
  send_retry-more zero n = omega arith
  send_retry-more (suc fuel) n =
      ground (arith, send_retry-more fuel (paused http (send http post_bye n)))

  send_retry-bye :
      (fuel : ℕ) (n : Net Request Node)
      → byes n.sent + 1 ≤ byes (send_retry http (suc fuel) post_bye n).1.sent
  unfolding send_retry
  send_retry-bye fuel n = ground (arith, send_retry-more fuel (paused http (send http post_bye n)))

module _ (p : Liburma) (http : Http Request Body) (cfg : Config) where
  own_desc-Untold : (n : Net Request Node) → Untold n (own_desc p n).1
  unfolding own_desc
  own_desc-Untold n = ground arith

  ensure_resources-Untold : (n : Net Request Node) → Untold n (ensure_resources p cfg n).1
  unfolding ensure_resources make_resources
  ensure_resources-Untold n = ground (arith, own_desc-Untold (make_resources p cfg n).1)

  settle-Untold :
      (first_reply : Bool) (n : Net Request Node) → Untold n (settle p cfg first_reply n).1
  unfolding settle
  settle-Untold first_reply n = ground arith

  take_info-Untold :
      (status : ℕ) (body : Body) (again : Client PeerDesc) (n : Net Request Node)
      → Untold n (again (pause_at n)).1
      → Untold n (take_info p status body again n).1
  unfolding take_info
  take_info-Untold status body again n h = ground arith

  wait_info-Untold :
      (fuel : ℕ) (first_reply : Bool) (n : Net Request Node)
      → Untold n (wait_info p http cfg fuel first_reply n).1
  unfolding wait_info replied
  wait_info-Untold zero first_reply n = refl
  wait_info-Untold (suc fuel) first_reply n = elim (Reply-cases (http n.sent get_info)) [
    | inl (s, b, k) ↦
        let n1 = settle p cfg first_reply (send http get_info n) in
        let again = wait_info p http cfg fuel false in
        rw (k, wait_info)
          (then-Untold n1.0 _ n n1.1 (settle-Untold first_reply (send http get_info n)) (λ u.
            let n2 = ensure_resources p cfg n1.1 in
            then-Untold n2.0 (λ v. take_info p s b again) n1.1 n2.1 (ensure_resources-Untold n1.1)
              (λ v. take_info-Untold s b again n2.1 (wait_info-Untold fuel false (pause_at n2.1)))))
    | inr (inl k) ↦
        rw (k, wait_info) (wait_info-Untold fuel first_reply (pause_at (send http get_info n)))
    | inr (inr (kind, k)) ↦ rw (k, wait_info) refl
  ]

  read_msg-Untold :
      (fuel : ℕ) (my info : PeerDesc) (n : Net Request Node)
      → Untold n (read_msg p http fuel my info n).1
  unfolding read_msg
  read_msg-Untold fuel my info n = ground (arith, send_retry-Untold http fuel get_msg n refl)

  read_peer-Untold : (fuel : ℕ) (n : Net Request Node) → Untold n (read_peer p http cfg fuel n).1
  unfolding read_peer
  read_peer-Untold fuel n =
      let got = wait_info p http cfg fuel true n in
      then-Untold got.0 _ n got.1 (wait_info-Untold fuel true n) (λ info.
        let own = own_desc p got.1 in
        then-Untold own.0 _ got.1 own.1 (own_desc-Untold got.1) (λ my.
          let told = send_retry http fuel (post_import my) own.1 in
          then-Untold told.0 _ own.1 told.1
            (send_retry-Untold http fuel (post_import my) own.1 refl)
            (λ u. read_msg-Untold fuel my info told.1)))

  -- With fuel for one request or more, for any answers of the peer and of the library, a client of
  -- urma_hello sends the notice that the peer may free its memory if, and only if, its read has
  -- succeeded.
  pub client_run-bye :
      (fuel : ℕ) (n : Net Request Node)
      → 0 < fuel
      → (byes n.sent < byes (client_run p http cfg fuel n).1.sent)
        ↔ ((read_peer p http cfg fuel n).0 ≡ some (ok tt))
  unfolding client_run
  client_run-bye zero n h = absurd (omega arith)
  client_run-bye (suc fuel) n h =
      let m = read_peer p http cfg (suc fuel) n in
      ground (arith, read_peer-Untold (suc fuel) n, send_retry-bye http fuel m.1)
