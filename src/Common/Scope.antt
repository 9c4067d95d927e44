-- ===== src/Common/Scope.antt =====
-- The scope of a peer that an example imports: what it takes is given back.
use urma_rs.Base.{
  ℕ, zero, suc, ◌<◌, ◌≡◌, ◌⊎◌, refl, some, get_elem?, arith, sym, subst, ap, ◌∙◌, Bool-cases, inl,
  inr,
}
use urma_rs.Error.{Error, Result, ok, err}
use urma_rs.Ffi.Liburma.{Liburma, Event}
use urma_rs.Ffi.World.{World, Context, ContextInner, Rc, log}
use urma_rs.Ffi.Io.{Io, ◌>>=◌, dropping}
use urma_rs.Urma.Modes.{ctp}
use urma_rs.Urma.Jetty.{token_value}
use urma_rs.Urma.Peer.{Peer, drop_peer, import_ctx}
use urma_rs.Urma.Release.{held}
use urma_rs.Urma.Release.Scope.{
  Same, Same-trans, scope-Same, congr_of, drop_peer-trace, import_ctx-fails, drop_peer-import_ctx,
}
use urma_rs.Common.Desc.{PeerDesc}
use urma_rs.Common.Import.{is_enoexec, import_loop, import_peer, import_retries, connect_retry}

pub Result-cases :
    {A : Type 0} (r : Result A) → ((a : A) × (r ≡ ok a)) ⊎ ((e : Error) × (r ≡ err e))
Result-cases (ok a) = inl (a, refl)
Result-cases (err e) = inr (e, refl)

log_sleep-Same : (ms : ℕ) (w : World) → Same w (log w (Event.sleep ms))
unfolding held
log_sleep-Same ms w = (refl, refl)

module _ (p : Liburma) (ctx : Context) (d : PeerDesc) where
  abbrev tried : World → Result Peer × World
  tried w = import_ctx p ctx d.seg_ctx d.rjetty ctp token_value w

  abbrev again : World → World
  again w = log (tried w).1 (Event.sleep connect_retry)

  again-Same : (w : World) (e : Error) → (tried w).0 ≡ err e → Same w (again w)
  again-Same w e h =
      Same-trans w (tried w).1 (again w)
        (import_ctx-fails p ctx d.seg_ctx d.rjetty ctp token_value w e h)
        (log_sleep-Same connect_retry (tried w).1)

  -- What the loop does behind its first try.
  import_loop-split :
      (retries : ℕ) (w : World)
      → ((q : Peer) × ((tried w).0 ≡ ok q) × (import_loop p (suc retries) ctx d w ≡ tried w))
        ⊎ ((e : Error) × ((tried w).0 ≡ err e)
            × ((import_loop p (suc retries) ctx d w ≡ import_loop p retries ctx d (again w))
                ⊎ (import_loop p (suc retries) ctx d w ≡ tried w)))
  unfolding import_loop
  import_loop-split retries w = elim (Result-cases (tried w).0) [
    | inl (q, e) ↦ inl (q, e, ground (arith, e))
    | inr (er, e) ↦ inr (
      er,
      e,
      elim (Bool-cases (is_enoexec er)) [
        | inl retries_on ↦ inl (ground (arith, e, retries_on))
        | inr ends ↦ inr (ground (arith, e, ends))
      ],
    )
  ]

  pub import_loop-fails :
      (retries : ℕ) (w : World) (e : Error)
      → (import_loop p retries ctx d w).0 ≡ err e
      → Same w (import_loop p retries ctx d w).1
  unfolding import_loop
  import_loop-fails zero w e h = import_ctx-fails p ctx d.seg_ctx d.rjetty ctp token_value w e h
  import_loop-fails (suc retries) w e h = elim (import_loop-split retries w) [
    | inl (q, k, same) ↦ absurd (cc)
    | inr (er, k, inl on) ↦
        let rest =
          import_loop-fails retries (again w) e
            (sym (ap (λ (r : Result Peer × World). r.0) on) ∙ h) in
        subst (λ (v : World). Same w v) (sym (ap (λ (r : Result Peer × World). r.1) on))
          (Same-trans w (again w) (import_loop p retries ctx d (again w)).1 (again-Same w er k)
            rest)
    | inr (er, k, inr ends) ↦
        subst (λ (v : World). Same w v) (sym (ap (λ (r : Result Peer × World). r.1) ends))
          (import_ctx-fails p ctx d.seg_ctx d.rjetty ctp token_value w er k)
  ]

  module _ (b : Rc ContextInner) (live : 0 < b.strong) where
    -- A peer that was imported holds the context, and its drop gives everything back.
    abbrev IsScoped : World → Peer → World → Type 0
    IsScoped w q w' =
        Same w (drop_peer q w')
        × (get_elem? w'.contexts ctx.inner ≡ some (record b { strong = suc b.strong }))

    drop_peer-import_loop :
        (retries : ℕ) (w : World) (q : Peer)
        → get_elem? w.contexts ctx.inner ≡ some b
        → (import_loop p retries ctx d w).0 ≡ ok q
        → IsScoped w q (import_loop p retries ctx d w).1
    unfolding import_loop
    drop_peer-import_loop zero w q at h =
        drop_peer-import_ctx p ctx b w at live d.seg_ctx d.rjetty ctp token_value q h
    drop_peer-import_loop (suc retries) w q at h = elim (import_loop-split retries w) [
      | inl (q', k, same) ↦
          subst (λ (v : World). IsScoped w q v) (sym (ap (λ (r : Result Peer × World). r.1) same))
            (drop_peer-import_ctx p ctx b w at live d.seg_ctx d.rjetty ctp token_value q
              (sym (ap (λ (r : Result Peer × World). r.0) same) ∙ h))
      | inr (er, k, inl on) ↦
          let (a, e) = again-Same w er k in
          let at' = ap (λ (v : World). get_elem? v.contexts ctx.inner) e ∙ at in
          let (s, l) =
            drop_peer-import_loop retries (again w) q at'
              (sym (ap (λ (r : Result Peer × World). r.0) on) ∙ h) in
          subst (λ (v : World). IsScoped w q v) (sym (ap (λ (r : Result Peer × World). r.1) on))
            (
              Same-trans w (again w) (drop_peer q (import_loop p retries ctx d (again w)).1) (a, e)
                  s,
              l,
            )
      | inr (er, k, inr ends) ↦ absurd (cc (k, ends, h))
    ]

    -- What uses a peer between its import and its drop gives back what it takes, if the use does.
    pub peer_scope :
        {B : Type 0} (body : Peer → Io B) (w : World)
        → get_elem? w.contexts ctx.inner ≡ some b
        → ((q : Peer) (v : World)
            → get_elem? v.contexts ctx.inner ≡ some (record b { strong = suc b.strong })
            → Same v (body q v).1)
        → Same w ((import_peer p ctx d >>= λ q. dropping (drop_peer q) (body q)) w).1
    unfolding import_peer
    peer_scope body w at uses =
        let made = import_loop p import_retries ctx d w in
        scope-Same drop_peer body (λ q. congr_of (drop_peer q) (drop_peer-trace q)) made.0 w made.1
          (import_loop-fails import_retries w)
          (λ q e. (drop_peer-import_loop import_retries w q at e).0)
          (λ q e. uses q made.1 (drop_peer-import_loop import_retries w q at e).1)
