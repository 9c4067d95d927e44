-- ===== src/Hello/Published.antt =====
-- The resources of a node are made once, behind the first answer of the peer.
use urma_rs.Base.{
  ℕ, zero, suc, ◌≡◌, ◌⊎◌, inl, inr, refl, ap, ◌∙◌, Bool, false, [], ◌∷◌, none, some, arith,
}
use urma_rs.Error.{Error, ok, err}
use urma_rs.Ffi.Liburma.{Liburma, Event, Trace}
use urma_rs.Ffi.World.{World, log}
use urma_rs.Common.Desc.{PeerDesc}
use urma_rs.Common.Import.{connect_retry}
use urma_rs.Common.Scope.{Result-cases}
use urma_rs.Urma.Seg.{descriptor}
use urma_rs.Common.Res.{UrmaRes, create, desc}
use urma_rs.Common.Http.{Reply, answer, not_connected, broken, Http, Net, send}
use urma_rs.Hello.{
  Request, Body, get_info, Node, Config, own_desc, make_resources, ensure_resources, settle,
  take_info, replied, Client, wait_info,
}

-- The calls in a trace: all but the pauses.
abbrev pub calls : Trace → Trace
calls [] = []
calls (Event.sleep ms ∷ tr) = calls tr
calls (e ∷ tr) = e ∷ calls tr

pub Reply-cases :
    {B : Type 0} (r : Reply B)
    → ((s : ℕ) × (b : B) × (r ≡ answer s b)) ⊎ ((r ≡ not_connected) ⊎ ((k : ℕ) × (r ≡ broken k)))
Reply-cases (answer s b) = inl (s, b, refl)
Reply-cases not_connected = inr (inl refl)
Reply-cases (broken k) = inr (inr (k, refl))

-- Nothing but pauses and requests.
abbrev pub Idle : Net Request Node → Net Request Node → Type 0
Idle n n' = (n'.local ≡ n.local) × (calls n'.world.trace ≡ calls n.world.trace)

abbrev pub pause_at : Net Request Node → Net Request Node
pause_at n = record n { world = log n.world (Event.sleep connect_retry) }

module _ (p : Liburma) (http : Http Request Body) (cfg : Config) where
  settle-Idle : (first_reply : Bool) (n : Net Request Node) → Idle n (settle p cfg first_reply n).1
  unfolding settle
  settle-Idle first_reply n = ground arith

  ensure_resources-Idle :
      (d : PeerDesc) (n : Net Request Node)
      → n.local.desc ≡ some d
      → ensure_resources p cfg n ≡ (some (ok tt), n)
  unfolding ensure_resources
  ensure_resources-Idle d n e = ground (arith, e)

  take_info-Idle :
      (status : ℕ) (body : Body) (again : Client PeerDesc) (n : Net Request Node)
      → Idle (pause_at n) (again (pause_at n)).1
      → Idle n (take_info p status body again n).1
  unfolding take_info
  take_info-Idle status body again n h = ground arith

  replied-Idle :
      (d : PeerDesc) (first_reply : Bool) (status : ℕ) (body : Body) (again : Client PeerDesc)
      (n : Net Request Node)
      → n.local.desc ≡ some d
      → ((m : Net Request Node) → m.local.desc ≡ some d → Idle m (again m).1)
      → Idle n (replied p cfg first_reply status body again n).1
  unfolding replied settle
  replied-Idle d first_reply status body again n e h =
      let n1 = (settle p cfg first_reply n).1 in
      let (l, c) = settle-Idle first_reply n in
      let e1 : n1.local.desc ≡ some d = ap (λ (x : Node). x.desc) l ∙ e in
      ground (
        arith,
        l,
        c,
        ensure_resources-Idle d n1 e1,
        take_info-Idle status body again n1 (h (pause_at n1) e1),
      )

  wait_info-Idle :
      (d : PeerDesc) (fuel : ℕ) (first_reply : Bool) (n : Net Request Node)
      → n.local.desc ≡ some d
      → Idle n (wait_info p http cfg fuel first_reply n).1
  unfolding wait_info
  wait_info-Idle d zero first_reply n e = (refl, refl)
  wait_info-Idle d (suc fuel) first_reply n e = elim (Reply-cases (http n.sent get_info)) [
    | inl (s, b, k) ↦
        rw (k, wait_info)
          (replied-Idle d first_reply s b (wait_info p http cfg fuel false) (send http get_info n) e
            (wait_info-Idle d fuel false))
    | inr (inl k) ↦
        rw (k, wait_info) (wait_info-Idle d fuel first_reply (pause_at (send http get_info n)) e)
    | inr (inr (kind, k)) ↦ rw (k, wait_info) (refl, refl)
  ]

  settle_ok :
      (first_reply : Bool) (n : Net Request Node) → (settle p cfg first_reply n).0 ≡ some (ok tt)
  unfolding settle
  settle_ok first_reply n = ground arith

  desc_ok : (r : UrmaRes) (w : World) → (d : PeerDesc) × (desc p r w ≡ (ok d, w))
  unfolding desc descriptor
  desc_ok r w = elim (Result-cases (desc p r w).0) [
    | inl (d, k) ↦ (d, ground (arith, k))
    | inr (e, k) ↦ absurd (ground (arith, k))
  ]

  -- The resources are made by one run of `create`, or an error of it ends the client.
  ensure_resources-creates :
      (n : Net Request Node)
      → cfg.hook ≡ false
      → n.local.desc ≡ none
      → let r = ensure_resources p cfg n in
        (r.1.world.trace ≡ (create p cfg.dev n.world).1.trace)
        × (((e : Error) × (r.0 ≡ some (err e)))
            ⊎ ((d : PeerDesc) × (r.0 ≡ some (ok tt)) × (r.1.local.desc ≡ some d)))
  unfolding ensure_resources make_resources own_desc
  ensure_resources-creates n urma fresh = elim (Result-cases (create p cfg.dev n.world).0) [
    | inl (r, k) ↦
        let (d, j) = desc_ok r (create p cfg.dev n.world).1 in
        (
          ground (arith, urma, fresh, k, j),
          inr (d, ground (arith, urma, fresh, k, j), ground (arith, urma, fresh, k, j)),
        )
    | inr (e, k) ↦ (ground (arith, urma, fresh, k), inl (e, ground (arith, urma, fresh, k)))
  ]

  -- Nothing but pauses happens, or one run of `create` besides.
  abbrev pub CreatesOnce : Net Request Node → Net Request Node → Type 0
  CreatesOnce n n' =
      Idle n n'
      ⊎ ((v : World) × (calls v.trace ≡ calls n.world.trace)
          × (calls n'.world.trace ≡ calls (create p cfg.dev v).1.trace))

  replied-CreatesOnce :
      (first_reply : Bool) (status : ℕ) (body : Body) (fuel : ℕ) (n : Net Request Node)
      → cfg.hook ≡ false
      → n.local.desc ≡ none
      → CreatesOnce n (replied p cfg first_reply status body (wait_info p http cfg fuel false) n).1
  unfolding replied
  replied-CreatesOnce first_reply status body fuel n urma fresh =
      let n1 = (settle p cfg first_reply n).1 in
      let (l, c) = settle-Idle first_reply n in
      let fresh1 : n1.local.desc ≡ none = ap (λ (x : Node). x.desc) l ∙ fresh in
      let (made, ends) = ensure_resources-creates n1 urma fresh1 in
      let n2 = (ensure_resources p cfg n1).1 in
      inr (
        n1.world,
        c,
        elim ends [
          | inl (e, k) ↦ ground (arith, settle_ok first_reply n, k, made)
          | inr (d, k, pub_d) ↦
              let (l', c') =
                take_info-Idle status body (wait_info p http cfg fuel false) n2
                  (wait_info-Idle d fuel false (pause_at n2) pub_d) in
              ground (arith, settle_ok first_reply n, k, made, c')
        ],
      )

  -- In URMA mode and before a descriptor is published, the loop of urma_hello that asks for the
  -- peer, for any answers, makes no call but pauses, or those of one run of create and pauses: the
  -- resources are made once at most.
  pub wait_info-CreatesOnce :
      (fuel : ℕ) (first_reply : Bool) (n : Net Request Node)
      → cfg.hook ≡ false
      → n.local.desc ≡ none
      → CreatesOnce n (wait_info p http cfg fuel first_reply n).1
  unfolding wait_info
  wait_info-CreatesOnce zero first_reply n urma fresh = inl (refl, refl)
  wait_info-CreatesOnce (suc fuel) first_reply n urma fresh =
      elim (Reply-cases (http n.sent get_info)) [
        | inl (s, b, k) ↦
            rw (k, wait_info)
              (replied-CreatesOnce first_reply s b fuel (send http get_info n) urma fresh)
        | inr (inl k) ↦
            rw (k, wait_info)
              (wait_info-CreatesOnce fuel first_reply (pause_at (send http get_info n)) urma fresh)
        | inr (inr (kind, k)) ↦ rw (k, wait_info) (inl (refl, refl))
      ]
