-- ===== src/Common/Laws.antt =====
-- What the helpers that the examples share promise.
use urma_rs.Base.{
  ℕ, zero, suc, ◌+◌, ◌-◌, ◌==◌, ◌≤◌, ◌≡◌, ◌≢◌, ◌↔◌, refl, ap, ◌∙◌, true, ◌&&◌, ◌||◌, not, List, [],
  ◌∷◌, ◌++◌, some, length, take, replicate, position, min, arith,
}
use urma_rs.Error.{Error, Result, ok, err}
use urma_rs.Ffi.Liburma.{Liburma, Event, Trace}
use urma_rs.Ffi.World.{World, Context, log}
use urma_rs.Urma.Modes.{rm, ctp}
use urma_rs.Urma.Peer.{Peer, import_ctx}
use urma_rs.Urma.Cap.{DeviceCap, supports, supports_multi_path}
use urma_rs.Urma.Release.{held}
use urma_rs.Urma.Release.Create.{Gains}
use urma_rs.Urma.Release.Import.{peer_held, import_ctx-Gains}
use urma_rs.Urma.Jetty.{token_value}
use urma_rs.Common.Message.{cstr_len, fill_msg}
use urma_rs.Common.Desc.{PeerDesc}
use urma_rs.Common.Import.{is_enoexec, import_loop, import_peer, import_retries, connect_retry}
use urma_rs.Common.Support.{check_support_of, is_bonding}

-- No byte of the text is 0.
abbrev pub IsText : List ℕ → Type 0
IsText [] = Unit
IsText (c ∷ cs) = (c ≢ 0) × IsText cs

position-zero :
    (n : ℕ) (text pad : List ℕ)
    → IsText text
    → position (λ c. c == 0) (take n text ++ (0 ∷ pad)) ≡ some (min n (length text))
position-zero zero text pad h = ground arith
position-zero (suc n) [] pad h = ground arith
position-zero (suc n) (c ∷ text) pad h = ground (arith, position-zero n text pad h.1)

pub length-fill :
    (n : ℕ) (text : List ℕ) (k : ℕ)
    → n ≤ length text
    → length (take n text ++ replicate k 0) ≡ n + k
length-fill zero text zero h = refl
length-fill zero text (suc k) h = omega (arith, length-fill zero text k h)
length-fill (suc n) [] k h = absurd (omega arith)
length-fill (suc n) (c ∷ text) k h = omega (arith, length-fill n text k (omega arith))

-- For a text without NUL bytes, fill_msg makes exactly 64 bytes whose length as a C string is that
-- of the text, cut at 63.
pub cstr_len-fill_msg :
    (text : List ℕ)
    → IsText text
    → (length (fill_msg text) ≡ 64) × (cstr_len (fill_msg text) ≡ min (length text) 63)
unfolding fill_msg cstr_len
cstr_len-fill_msg text h =
    let n = min (length text) 63 in
    let more : 64 - n ≡ suc (63 - n) = omega arith in
    let pad = ap (λ (k : ℕ). replicate {A = ℕ} k 0) more in
    let cut : min n (length text) ≡ n = omega arith in
    (
      length-fill n text (64 - n) (omega arith) ∙ omega arith,
      ground (arith, pad, cut, position-zero n text (replicate (63 - n) 0) h),
    )

-- The preflight passes exactly on devices that support CTP-RM, and multi-path for RM where the name
-- begins with "bonding".
pub check_support_of-ok :
    (dev : List ℕ) (cap : DeviceCap) (w : World)
    → ((check_support_of dev cap w).0 ≡ ok tt)
      ↔ ((supports cap rm ctp && (not (is_bonding dev) || supports_multi_path cap rm)) ≡ true)
unfolding check_support_of supports
check_support_of-ok dev cap w = ground arith

-- The pauses in a trace.
abbrev pub sleeps : Trace → ℕ
sleeps [] = 0
sleeps (Event.sleep ms ∷ tr) = suc (sleeps tr)
sleeps (_ ∷ tr) = sleeps tr

import_ctx-sleeps :
    (p : Liburma) (ctx : Context) (a b : List ℕ) (t : ℕ) (w : World)
    → sleeps (import_ctx p ctx a b ctp t w).1.trace ≡ sleeps w.trace
unfolding import_ctx
import_ctx-sleeps p ctx a b t w = ground arith

module _ (p : Liburma) (ctx : Context) (desc : PeerDesc) where
  abbrev tried : World → Result Peer × World
  tried w = import_ctx p ctx desc.seg_ctx desc.rjetty ctp token_value w

  abbrev again : World → World
  again w = log (tried w).1 (Event.sleep connect_retry)

  import_loop-Gains :
      (retries : ℕ) (w : World)
      → let r = import_loop p retries ctx desc w in Gains peer_held (held w.trace) r.0 r.1
  unfolding import_loop held
  import_loop-Gains zero w = import_ctx-Gains p ctx desc.seg_ctx desc.rjetty ctp token_value w
  import_loop-Gains (suc retries) w = ground (
    arith,
    import_ctx-Gains p ctx desc.seg_ctx desc.rjetty ctp token_value w,
    import_loop-Gains retries (again w),
  )

  import_loop-sleeps :
      (retries : ℕ) (w : World)
      → sleeps (import_loop p retries ctx desc w).1.trace ≤ sleeps w.trace + retries
  unfolding import_loop
  import_loop-sleeps zero w =
      omega (arith, import_ctx-sleeps p ctx desc.seg_ctx desc.rjetty token_value w)
  import_loop-sleeps (suc retries) w = ground (
    arith,
    import_ctx-sleeps p ctx desc.seg_ctx desc.rjetty token_value w,
    import_loop-sleeps retries (again w),
  )

  import_loop-err :
      (retries : ℕ) (w : World) (e : Error)
      → (import_loop p retries ctx desc w).0 ≡ err e
      → is_enoexec e ≡ true
      → sleeps (import_loop p retries ctx desc w).1.trace ≡ sleeps w.trace + retries
  unfolding import_loop
  import_loop-err zero w e failed retryable =
      omega (arith, import_ctx-sleeps p ctx desc.seg_ctx desc.rjetty token_value w)
  import_loop-err (suc retries) w e failed retryable = ground (
    arith,
    import_ctx-sleeps p ctx desc.seg_ctx desc.rjetty token_value w,
    import_loop-err retries (again w) e,
  )

  -- import_peer makes at most 30 pauses; it leaves held the two imports of the peer on success and
  -- nothing new on failure, whatever the earlier tries did.
  pub import_peer-Gains :
      (w : World)
      → let r = import_peer p ctx desc w in
        Gains peer_held (held w.trace) r.0 r.1 × (sleeps r.1.trace ≤ sleeps w.trace + 30)
  unfolding import_peer
  import_peer-Gains w = (import_loop-Gains import_retries w, import_loop-sleeps import_retries w)

  -- If import_peer fails with ENOEXEC, it has made exactly 30 pauses: all its retries are used.
  pub import_peer-err :
      (w : World) (e : Error)
      → (import_peer p ctx desc w).0 ≡ err e
      → is_enoexec e ≡ true
      → sleeps (import_peer p ctx desc w).1.trace ≡ sleeps w.trace + 30
  unfolding import_peer
  import_peer-err = import_loop-err import_retries
