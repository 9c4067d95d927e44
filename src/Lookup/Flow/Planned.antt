-- ===== src/Lookup/Flow/Planned.antt =====
-- The reads of a client, as a list that is made beforehand.
use urma_rs.Base.{
  ℕ, zero, suc, ◌+◌, ◌-◌, ◌^◌, ◌≤◌, ◌<◌, min, max, ltb, ◌≡◌, refl, ap, ◌∙◌, sym, Bool, true, false,
  List, [], ◌∷◌, ◌++◌, Option, none, some, position, get_elem?, All, arith, Bool-cases,
  Option-cases, inl, inr,
}
use urma_rs.Error.{Result, ok, err}
use urma_rs.Common.Http.{Net, NetIo, ◌>>=◌, continue, pure}
use urma_rs.Lookup.Master.{OwnerInfo, owns}
use urma_rs.Lookup.Client.{is_own}
use urma_rs.Lookup.Flow.{Request, Transport, fetch_records}

continue_ok :
    {Q L A B : Type 0} (r : Option (Result A)) (f : A → NetIo Q L B) (m : Net Q L) (b : B)
    → (continue r f m).0 ≡ some (ok b)
    → (a : A) × (r ≡ some (ok a)) × ((f a m).0 ≡ some (ok b))
continue_ok none f m b e = absurd (cc)
continue_ok (some (ok a)) f m b e = (a, refl, e)
continue_ok (some (err x)) f m b e = absurd (cc)

pub bind_ok :
    {Q L A B : Type 0} (m : NetIo Q L A) (f : A → NetIo Q L B) (n : Net Q L) (b : B)
    → ((m >>= f) n).0 ≡ some (ok b)
    → (a : A) × ((m n).0 ≡ some (ok a)) × ((f a (m n).1).0 ≡ some (ok b))
bind_ok m f n b e = continue_ok (m n).0 f (m n).1 b e

-- One read: the index of the owner in the directory, its entry, and the record.
pub record Read : Type 0 where
  pub idx : ℕ
  pub owner : OwnerInfo
  pub rid : ℕ

-- The entry stands at the index, and its range contains the record.
pub record IsPlanned (owners : List OwnerInfo) (r : Read) : Type 0 where
  pub listed : get_elem? owners r.idx ≡ some r.owner
  pub from_first : r.owner.first_record_id ≤ r.rid
  pub to_last : r.rid < r.owner.first_record_id + r.owner.record_cnt

abbrev pub rids : List Read → List ℕ
rids [] = []
rids (r ∷ plan) = r.rid ∷ rids plan

-- So many numbers in a row.
abbrev pub span : ℕ → ℕ → List ℕ
span start zero = []
span start (suc n) = start ∷ span (suc start) n

-- The records below a total that are outside a range.
abbrev pub outside : (first cnt total : ℕ) → List ℕ
outside first cnt total = span 0 (min first total) ++ span (first + cnt) (total - (first + cnt))

position_passes :
    {A : Type 0} (test : A → Bool) (xs : List A) (i : ℕ) (x : A)
    → position test xs ≡ some i
    → get_elem? xs i ≡ some x
    → test x ≡ true
position_passes test [] i x e at = absurd (cc)
position_passes test (y ∷ xs) i x e at = elim (Bool-cases (test y)) [
  | inl here ↦ ground (arith, here)
  | inr there ↦ elim (Option-cases (position test xs)) [
    | inl lost ↦ absurd (ground (arith, there, lost))
    | inr (j, found) ↦ position_passes test xs j x found (ground (arith, there, found))
  ]
]

-- The part of `outside` from `rid` on.
abbrev pub outside_from : (first cnt total rid : ℕ) → List ℕ
outside_from first cnt total rid =
    span rid (min first total - rid) ++ span (max rid (first + cnt)) (total - max rid (first + cnt))

module _ (first cnt total rid : ℕ) (fits : first + cnt < 2 ^ 32) (below : rid < total) where
  outside-mine :
      is_own first cnt rid ≡ true
      → outside_from first cnt total rid ≡ outside_from first cnt total (suc rid)
  outside-mine mine =
      let range : (first ≤ rid) × (rid < first + cnt) = ground (arith, mine) in
      let before : min first total - rid ≡ 0 = omega (arith, range.0) in
      let before' : min first total - suc rid ≡ 0 = omega (arith, range.0) in
      let behind : max rid (first + cnt) ≡ first + cnt = omega (arith, range.1) in
      let behind' : max (suc rid) (first + cnt) ≡ first + cnt = omega (arith, range.1) in
      rw (before, before', behind, behind') refl

  outside-before :
      rid < first → outside_from first cnt total rid ≡ rid ∷ outside_from first cnt total (suc rid)
  outside-before lt =
      let before : min first total - rid ≡ suc (min first total - suc rid) = omega arith in
      let behind : max rid (first + cnt) ≡ first + cnt = omega arith in
      let behind' : max (suc rid) (first + cnt) ≡ first + cnt = omega arith in
      rw (before, behind, behind') refl

  outside-behind :
      first + cnt ≤ rid
      → outside_from first cnt total rid ≡ rid ∷ outside_from first cnt total (suc rid)
  outside-behind ge =
      let before : min first total - rid ≡ 0 = omega arith in
      let before' : min first total - suc rid ≡ 0 = omega arith in
      let behind : max rid (first + cnt) ≡ rid = omega arith in
      let behind' : max (suc rid) (first + cnt) ≡ suc rid = omega arith in
      let left : total - rid ≡ suc (total - suc rid) = omega arith in
      rw (before, before', behind, behind', left) refl

  outside-other :
      is_own first cnt rid ≡ false
      → outside_from first cnt total rid ≡ rid ∷ outside_from first cnt total (suc rid)
  outside-other other = elim (Bool-cases (ltb rid first)) [
    | inl lt ↦ outside-before (ground (arith, lt))
    | inr ge ↦ outside-behind (ground (arith, ge, other))
  ]

module _ {S R : Type 0} (tr : Transport S R) where
  -- The reads of a plan one after the other, and what they yield.
  unfoldable pub run_reads : List Read → NetIo Request S (List R)
  run_reads [] = pure []
  run_reads (r ∷ plan) = do
    got ← tr.read_record r.idx r.owner r.rid
    rest ← run_reads plan
    pure (got ∷ rest)

  -- A plan of the reads from a record on, up to the total, that do not concern the own range.
  pub record Plan (first cnt : ℕ) (owners : List OwnerInfo) (total left rid : ℕ) (n : Net Request S)
      : Type 0 where
    pub plan : List Read
    pub planned : All (IsPlanned owners) plan
    pub outside_range : rids plan ≡ outside_from first cnt total rid
    pub same : fetch_records tr first cnt owners left rid n ≡ run_reads plan n

  module _ (first cnt : ℕ) (owners : List OwnerInfo) (total : ℕ) (fits : first + cnt < 2 ^ 32) where
    walk_ends :
        (rid : ℕ) (n : Net Request S) → rid + 0 ≡ total → Plan first cnt owners total 0 rid n
    unfolding fetch_records run_reads
    walk_ends rid n here =
        let before : min first total - rid ≡ 0 = omega arith in
        let behind : total - max rid (first + cnt) ≡ 0 = omega arith in
        record { plan = []; planned = tt; outside_range = rw (before, behind) refl; same = refl }

    module _ (left rid : ℕ) (n : Net Request S) (idx : ℕ) (o : OwnerInfo)
        (ends : rid + suc left ≡ total) (found : position (owns rid) owners ≡ some idx)
        (at : get_elem? owners idx ≡ some o) where
      own_skipped :
          is_own first cnt rid ≡ true
          → Plan first cnt owners total left (suc rid) n
          → Plan first cnt owners total (suc left) rid n
      unfolding fetch_records
      own_skipped mine rest = record {
        plan = rest.plan;
        planned = rest.planned;
        outside_range =
            rest.outside_range ∙ sym (outside-mine first cnt total rid fits (omega arith) mine);
        same = ground (arith, found, at, mine, rest.same);
      }

      other_read :
          is_own first cnt rid ≡ false
          → (r : R) → (tr.read_record idx o rid n).0 ≡ some (ok r)
          → Plan first cnt owners total left (suc rid) (tr.read_record idx o rid n).1
          → Plan first cnt owners total (suc left) rid n
      unfolding fetch_records run_reads
      other_read other r read rest =
          let mine : owns rid o ≡ true = position_passes (owns rid) owners idx o found at in
          record {
            plan = record { idx = idx; owner = o; rid = rid } ∷ rest.plan;
            planned = (
              record {
                listed = at;
                from_first = ground (arith, mine);
                to_last = ground (arith, mine);
              },
              rest.planned,
            );
            outside_range =
                ap (◌∷◌ rid) rest.outside_range
                ∙ sym (outside-other first cnt total rid fits (omega arith) other);
            same = ground (arith, found, at, other, read, rest.same);
          }

    pub fetch_records-Plan :
        (left rid : ℕ) (n : Net Request S) (got : List R)
        → rid + left ≡ total
        → (fetch_records tr first cnt owners left rid n).0 ≡ some (ok got)
        → Plan first cnt owners total left rid n
    unfolding fetch_records
    fetch_records-Plan zero rid n got ends e = walk_ends rid n ends
    fetch_records-Plan (suc left) rid n got ends e =
        elim (Option-cases (position (owns rid) owners)) [
          | inl lost ↦ absurd (ground (arith, lost))
          | inr (idx, found) ↦ elim (Option-cases (get_elem? owners idx)) [
            | inl lost ↦ absurd (ground (arith, found, lost))
            | inr (o, at) ↦ elim (Bool-cases (is_own first cnt rid)) [
              | inl mine ↦ own_skipped left rid n idx o ends found at mine (
                  fetch_records-Plan left (suc rid) n got (omega (arith, ends))
                    (ground (arith, found, at, mine, e)))
              | inr other ↦
                  let rest = fetch_records tr first cnt owners left (suc rid) in
                  let keep : R → List R → NetIo Request S (List R) = λ r gots. pure (r ∷ gots) in
                  let (r, read, e') =
                    bind_ok (tr.read_record idx o rid) (λ r. rest >>= keep r) n got
                      (ground (arith, found, at, other, e)) in
                  let m = (tr.read_record idx o rid n).1 in
                  let (gots, fetched, e'') = bind_ok rest (keep r) m got e' in
                  other_read left rid n idx o ends found at other r read
                    (fetch_records-Plan left (suc rid) m gots (omega (arith, ends)) fetched)
            ]
          ]
        ]
