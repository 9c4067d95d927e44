-- ===== src/Urma/Post/Single.antt =====
-- What the single forms post, and what they refuse.
use urma_rs.Base.{
  ℕ, ◌+◌, ◌^◌, ◌%◌, ◌<◌, ltb, leb, ◌&&◌, ◌≡◌, refl, Bool, true, false, String, List, [], ◌∷◌, map,
  some, none, length, length-map, take, if◌then◌else◌, arith,
}
use urma_rs.Error.{Error, err, invalid, text, local_sges_exceed_max_sge, check_status}
use urma_rs.Ffi.Requests.{Posted, walk}
use urma_rs.Ffi.Liburma.{Liburma, Event}
use urma_rs.Ffi.World.{World, log}
use urma_rs.Urma.Seg.{LocalSge, to_ffi}
use urma_rs.Urma.Jetty.{Jetty}
use urma_rs.Urma.Peer.{Peer}
use urma_rs.Urma.Post.{wr_flag, opcode_of, remote_sge, rw_memory, checked_total, post_rw}

abbrev pub sum_len : List LocalSge → ℕ
sum_len [] = 0
sum_len (s ∷ sges) = s.len + sum_len sges

checked_total-eq :
    (a : ℕ) (sges : List LocalSge)
    → a < 2 ^ 32
    → checked_total a sges
      ≡ (if ltb (a + sum_len sges) (2 ^ 32) then some (a + sum_len sges) else none)
unfolding checked_total
checked_total-eq a [] h = let e : a + 0 ≡ a = omega arith in ground (arith, e)
checked_total-eq a (s ∷ sges) h =
    let e : a + s.len + sum_len sges ≡ a + (s.len + sum_len sges) = omega arith in
    ground (arith, e, checked_total-eq (a + s.len) sges)

take-length {ℓ} : {A : Type ℓ} (xs : List A) → take (length xs) xs ≡ xs
take-length [] = refl
take-length (x ∷ xs) = rw (take-length xs)

-- A window list that may be posted: there is one, there are no more than the jetty allows, and
-- their lengths add up to a u32.
abbrev pub may_post : Jetty → List LocalSge → Bool
may_post j [] = false
may_post j (s ∷ sges) = leb (length (s ∷ sges)) j.max_sge && ltb (sum_len (s ∷ sges)) (2 ^ 32)

-- One READ or WRITE over all the windows, as liburma.so has to see it.
abbrev pub gathered : Bool → Peer → ℕ → List LocalSge → ℕ → Bool → Posted
gathered is_read peer remote_va sges user_ctx signaled =
    let far = remote_sge peer remote_va (sum_len sges) ∷ [] in
    let near = map to_ffi sges in
    record {
      opcode = opcode_of is_read;
      flag = wr_flag signaled;
      tjetty = peer.tjetty;
      user_ctx = user_ctx;
      src = if is_read then far else near;
      dst = if is_read then near else far;
    }

walk-gathered :
    (is_read : Bool) (peer : Peer) (remote_va : ℕ) (sges : List LocalSge) (user_ctx : ℕ)
    (signaled : Bool)
    → length sges < 2 ^ 32
    → walk 2
        (rw_memory is_read peer remote_va (sum_len sges) (map to_ffi sges) user_ctx signaled)
        (some 0)
      ≡ some (gathered is_read peer remote_va sges user_ctx signaled ∷ [])
unfolding walk
walk-gathered is_read peer remote_va sges user_ctx signaled fits =
    let n : length (map to_ffi sges) % 2 ^ 32 ≡ length (map to_ffi sges) =
      omega (arith, length-map sges to_ffi) in
    ground (arith, n, take-length (map to_ffi sges))

module _ (p : Liburma) (is_read : Bool) (what : String) (j : Jetty) (peer : Peer) (remote_va : ℕ)
    (sges : List LocalSge) (user_ctx : ℕ) (signaled : Bool) (w : World) where
  posted_call :
      (sges : List LocalSge)
      → may_post j sges ≡ true
      → let m =
          rw_memory is_read peer remote_va (sum_len sges) (map to_ffi sges) user_ctx signaled in
        let st = p.urma_post_jetty_send_wr w.trace j.raw m in
        post_rw p is_read what j peer remote_va sges user_ctx signaled w
        ≡ (check_status st what, log w (Event.urma_post_jetty_send_wr j.raw m st))
  unfolding post_rw check_status
  posted_call [] may = ground arith
  posted_call (s ∷ sges) may = ground (arith, checked_total-eq 0 (s ∷ sges) (omega arith))

  few : (sges : List LocalSge) → may_post j sges ≡ true → j.max_sge < 2 ^ 8 → length sges < 2 ^ 32
  few [] may small = omega arith
  few (s ∷ sges) may small = ground arith

  abbrev refusal : List LocalSge → Error
  refusal [] = invalid (text "empty local sge list")
  refusal (s ∷ sges) =
      if ltb j.max_sge (length (s ∷ sges))
      then invalid (local_sges_exceed_max_sge (length (s ∷ sges)) j.max_sge)
      else invalid (text "total local sge length overflows u32")

  refused :
      (sges : List LocalSge)
      → may_post j sges ≡ false
      → post_rw p is_read what j peer remote_va sges user_ctx signaled w ≡ (err (refusal sges), w)
  unfolding post_rw
  refused [] bad = refl
  refused (s ∷ sges) bad = ground (arith, checked_total-eq 0 (s ∷ sges) (omega arith))

  -- With a max_sge below 2^8, a list of windows that may be posted (not empty, within max_sge,
  -- total below 2^32) leads to one call with one work request that covers the windows in order and
  -- a remote range of their total length; the result is the meaning of the status.
  pub post_rw-posts :
      may_post j sges ≡ true
      → j.max_sge < 2 ^ 8
      → let m =
          rw_memory is_read peer remote_va (sum_len sges) (map to_ffi sges) user_ctx signaled in
        let st = p.urma_post_jetty_send_wr w.trace j.raw m in
        (post_rw p is_read what j peer remote_va sges user_ctx signaled w
          ≡ (check_status st what, log w (Event.urma_post_jetty_send_wr j.raw m st)))
        × (walk 2 m (some 0) ≡ some (gathered is_read peer remote_va sges user_ctx signaled ∷ []))
  post_rw-posts may small = (
    posted_call sges may,
    walk-gathered is_read peer remote_va sges user_ctx signaled (few sges may small),
  )

  -- Any list of windows that may not be posted is refused with an error before anything is called
  -- or changed.
  pub post_rw-refuses :
      may_post j sges ≡ false
      → (e : Error) × (post_rw p is_read what j peer remote_va sges user_ctx signaled w
          ≡ (err e, w))
  post_rw-refuses bad = (refusal sges, refused sges bad)
