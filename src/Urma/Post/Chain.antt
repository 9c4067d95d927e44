-- ===== src/Urma/Post/Chain.antt =====
-- The chain that the list forms wire, against what the single forms post.
use urma_rs.Base.{
  ℕ, zero, suc, ◌+◌, ◌≡◌, refl, Bool, List, [], ◌∷◌, map, some, length, get_elem?, drop, arith,
  if◌then◌else◌,
}
use urma_rs.Ffi.Requests.{Posted, WrMemory, walk}
use urma_rs.Urma.Seg.{to_ffi}
use urma_rs.Urma.Peer.{Peer}
use urma_rs.Urma.Post.{Req, wr_flag, opcode_of, remote_sge, list_memory, wire, list_wr}

-- One READ or WRITE as liburma.so has to see it: a READ moves the remote range to the local
-- window, a WRITE the local window to the remote range.
abbrev pub single : Bool → Peer → Req → Posted
single is_read peer r =
    let far = remote_sge peer r.remote_va r.local.len ∷ [] in
    let near = to_ffi r.local ∷ [] in
    record {
      opcode = opcode_of is_read;
      flag = wr_flag r.signaled;
      tjetty = peer.tjetty;
      user_ctx = r.user_ctx;
      src = if is_read then far else near;
      dst = if is_read then near else far;
    }

module _ {ℓ} {A : Type ℓ} where
  get_elem?-drop :
      (xs : List A) (i : ℕ) (y : A) (ys : List A) → drop i xs ≡ y ∷ ys → get_elem? xs i ≡ some y
  get_elem?-drop [] zero y ys e = cc
  get_elem?-drop [] (suc i) y ys e = cc
  get_elem?-drop (x ∷ xs) zero y ys e = cc
  get_elem?-drop (x ∷ xs) (suc i) y ys e = get_elem?-drop xs i y ys e

  drop-suc : (xs : List A) (i : ℕ) (y : A) (ys : List A) → drop i xs ≡ y ∷ ys → drop (suc i) xs ≡ ys
  drop-suc [] zero y ys e = cc
  drop-suc [] (suc i) y ys e = cc
  drop-suc (x ∷ xs) zero y ys e = cc
  drop-suc (x ∷ xs) (suc i) y ys e = drop-suc xs i y ys e

module _ (is_read : Bool) (peer : Peer) (m : WrMemory) (n : ℕ) where
  -- From index `i` on, the three arrays are those of `rest`.
  record Holds (i : ℕ) (rest : List Req) : Type 0 where
    size : i + length rest ≡ n
    far : drop i m.remote_sges ≡ map (λ r. remote_sge peer r.remote_va r.local.len) rest
    near : drop i m.local_sges ≡ map (λ r. to_ffi r.local) rest
    requests : drop i m.wrs ≡ wire is_read n i (map (list_wr is_read peer) rest)

  Holds-tail : (i : ℕ) (r : Req) (rest : List Req) → Holds i (r ∷ rest) → Holds (suc i) rest
  unfolding wire
  Holds-tail i r rest h = record {
    size = omega arith;
    far = drop-suc m.remote_sges i _ _ h.far;
    near = drop-suc m.local_sges i _ _ h.near;
    requests = drop-suc m.wrs i _ _ h.requests;
  }

  walk-Holds :
      (i : ℕ) (r : Req) (rest : List Req)
      → Holds i (r ∷ rest)
      → walk (suc (length (r ∷ rest))) m (some i) ≡ some (map (single is_read peer) (r ∷ rest))
  unfolding wire walk
  walk-Holds i r [] h =
      let at = get_elem?-drop m.wrs i _ _ h.requests in ground (arith, at, h.far, h.near)
  walk-Holds i r (r' ∷ rest) h =
      let at = get_elem?-drop m.wrs i _ _ h.requests in
      let tail = walk-Holds (suc i) r' rest (Holds-tail i r (r' ∷ rest) h) in
      ground (arith, at, tail, h.far, h.near)

-- For a list of at least one READ or WRITE entry, a receiver that follows `next` from the first
-- work request that the list form builds finds one request for each entry, in order, with the
-- ranges, opcode, flag, target and user_ctx that the entry calls for, and then the end.
pub walk-list_memory :
    (is_read : Bool) (peer : Peer) (r : Req) (reqs : List Req)
    → walk (suc (length (r ∷ reqs))) (list_memory is_read peer (r ∷ reqs)) (some 0)
      ≡ some (map (single is_read peer) (r ∷ reqs))
unfolding list_memory
walk-list_memory is_read peer r reqs =
    walk-Holds is_read peer (list_memory is_read peer (r ∷ reqs)) (length (r ∷ reqs)) 0 r reqs
      (record { size = omega arith; far = refl; near = refl; requests = refl })
