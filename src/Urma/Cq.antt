-- ===== src/Urma/Cq.antt =====
-- src/urma.rs: `Completion` and `CompletionQueue`. A handle on a queue is the index of its box.
pub mod Laws
use urma_rs.Base.{
  ℕ, zero, suc, ◌==◌, ◌==ℤ◌, ℤ, is_negative, to_ℕ, Bool, not, ◌||◌, min, List, [], ◌∷◌, Option,
  none, some, length, if◌then◌else◌,
}
use urma_rs.Error.{Result, ok, err, status, bad_completion, poll_timeout}
use urma_rs.Ffi.Consts.{urma_cr_success}
use urma_rs.Ffi.Structs.{UrmaCr}
use urma_rs.Ffi.Liburma.{Liburma, Event}
use urma_rs.Ffi.World.{World, Context, CqInner, rc_new, rc_clone, rc_drop, rc_last, rc_value, log}
use urma_rs.Ffi.Io.{
  Io, ◌>>=◌, ◌>>◌, pure, fail, emit, non_null, null_err, urma_create_jfce, urma_create_jfc,
  urma_poll_jfc,
}
use urma_rs.Urma.Context.{drop_context, clone_context, raw_of}

pub record Completion : Type 0 where
  pub status : ℤ
  pub user_ctx : ℕ
  pub completion_len : ℕ

abbrev pub is_success : Completion → Bool
is_success c = c.status ==ℤ urma_cr_success

-- The safe view of one record, as both polls make it.
abbrev pub completion : UrmaCr → Completion
completion cr = record {
  status = cr.status;
  user_ctx = cr.user_ctx;
  completion_len = cr.completion_len;
}

-- Drop of a `CompletionQueue`.
unfoldable pub drop_cq : ℕ → World → World
drop_cq i w =
    let w' : World = record w { cqs = rc_drop w.cqs i } in
    elim (rc_last w.cqs i) [
      | none ↦ w'
      | some inner ↦
          drop_context inner.ctx
            (log (log w' (Event.urma_delete_jfc inner.jfc)) (Event.urma_delete_jfce inner.jfce))
    ]

unfoldable pub clone_cq : ℕ → World → World
clone_cq i w = record w { cqs = rc_clone w.cqs i }

abbrev pub cq_jfc : World → ℕ → ℕ
cq_jfc w i = elim (rc_value w.cqs i) [ none ↦ 0 | some inner ↦ inner.jfc ]

unfoldable pub jfc_of : ℕ → Io ℕ
jfc_of i w = (ok (cq_jfc w i), w)

-- `Rc::new(CqInner { jfce, jfc, _ctx: ctx.clone() })`.
unfoldable pub new_cq : CqInner → Io ℕ
unfolding clone_context
new_cq inner w =
    let w' = clone_context inner.ctx w in
    (ok (length w.cqs), record w' { cqs = rc_new w'.cqs inner })

abbrev pub poll_retries : ℕ
poll_retries = 100

-- 100 ms.
abbrev pub poll_interval : ℕ
poll_interval = 100

-- `MAX` of `poll_batch`.
abbrev pub max_batch : ℕ
max_batch = 64

-- `out.iter_mut().zip(raw.iter()).take(limit)`: element `i` of `out` is given record `i`.
unfoldable pub store : ℕ → ℕ → (ℕ → UrmaCr) → List Completion → List Completion
store limit i cr [] = []
store zero i cr (c ∷ out) = c ∷ out
store (suc limit) i cr (c ∷ out) = completion (cr i) ∷ store limit (suc i) cr out

module _ (p : Liburma) where
  unfoldable pub new : Context → ℕ → Io ℕ
  unfolding raw_of non_null null_err new_cq
  new ctx depth = do
    raw ← raw_of ctx
    jfce ← urma_create_jfce p raw
    jfce' ← non_null p jfce "urma_create_jfce"
    jfc ← urma_create_jfc p raw (record {
      depth = depth;
      flag = record { value = 0 };
      ceqn = 0;
      jfce = jfce';
      user_ctx = 0;
    })
    if jfc == 0
        then (do emit (Event.urma_delete_jfce jfce'); null_err p "urma_create_jfc")
        else new_cq (record { jfce = jfce'; jfc = jfc; ctx = ctx })

  unfoldable pub poll : ℕ → Io (Option Completion)
  unfolding jfc_of
  poll cq = do
    jfc ← jfc_of cq
    polled ← urma_poll_jfc p jfc 1
    if is_negative polled.n
        then fail (status polled.n "urma_poll_jfc")
        else if polled.n ==ℤ ℤ.pos 0
        then pure none
        else pure (some (completion (polled.cr 0)))

  -- `poll_batch` on the slice `out`: the count that it returns, and the slice afterwards.
  unfoldable pub poll_batch : ℕ → List Completion → Io (ℕ × List Completion)
  unfolding jfc_of store
  poll_batch cq [] = pure (0, [])
  poll_batch cq (c ∷ out) = do
    let want = min (length (c ∷ out)) max_batch
    jfc ← jfc_of cq
    polled ← urma_poll_jfc p jfc want
    if is_negative polled.n
        then fail (status polled.n "urma_poll_jfc")
        else pure (to_ℕ polled.n, store (min (to_ℕ polled.n) max_batch) 0 polled.cr (c ∷ out))

  -- The loop of `wait_read`, with the rounds left.
  unfoldable pub wait_loop : ℕ → ℕ → ℕ → Io Completion
  unfolding poll
  wait_loop zero cq expected_ctx = fail (poll_timeout expected_ctx)
  wait_loop (suc rounds) cq expected_ctx = do
    got ← poll cq
    elim got [
      | some cr ↦
          if not (is_success cr) || not (cr.user_ctx == expected_ctx)
          then fail (bad_completion cr.status cr.user_ctx)
          else pure cr
      | none ↦ emit (Event.sleep poll_interval) >> wait_loop rounds cq expected_ctx
    ]

  unfoldable pub wait_read : ℕ → ℕ → Io Completion
  wait_read cq expected_ctx = wait_loop poll_retries cq expected_ctx
