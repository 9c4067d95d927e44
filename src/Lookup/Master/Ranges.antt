-- ===== src/Lookup/Master/Ranges.antt =====
-- The ranges that the master hands out.
use urma_rs.Base.{
  ℕ, zero, suc, ◌+◌, ◌^◌, ◌<◌, ltb, true, List, [], ◌∷◌, ◌++◌, ◌≡◌, refl, ap, some, arith,
  if◌then◌else◌, position, get_elem?, Option-cases, Bool-cases, inl, inr,
}
use urma_rs.Lookup.Master.{
  OwnerInfo, MasterState, reserve, push, remove_at, entry_at, Step, Reach, reserves, pushes, start,
  next, owns,
}

-- How many of the entries own the record.
abbrev pub owners_of : ℕ → List OwnerInfo → ℕ
owners_of rid [] = 0
owners_of rid (o ∷ os) = (if owns rid o then 1 else 0) + owners_of rid os

abbrev pub total_records : List OwnerInfo → ℕ
total_records [] = 0
total_records (o ∷ os) = o.record_cnt + total_records os

owners_of-append :
    (rid : ℕ) (xs ys : List OwnerInfo)
    → owners_of rid (xs ++ ys) ≡ owners_of rid xs + owners_of rid ys
owners_of-append rid [] ys = omega arith
owners_of-append rid (o ∷ os) ys = omega (arith, owners_of-append rid os ys)

total_records-append :
    (xs ys : List OwnerInfo) → total_records (xs ++ ys) ≡ total_records xs + total_records ys
total_records-append [] ys = omega arith
total_records-append (o ∷ os) ys = omega (arith, total_records-append os ys)

module _ (rid : ℕ) where
  owners_of-remove_at :
      (i : ℕ) (os : List OwnerInfo) (o : OwnerInfo)
      → entry_at i os ≡ some o
      → owners_of rid os ≡ owners_of rid (o ∷ []) + owners_of rid (remove_at i os)
  unfolding entry_at remove_at
  owners_of-remove_at zero [] o e = cc
  owners_of-remove_at (suc i) [] o e = cc
  owners_of-remove_at zero (x ∷ os) o e = ground arith
  owners_of-remove_at (suc i) (x ∷ os) o e = omega (arith, owners_of-remove_at i os o e)

total_records-remove_at :
    (i : ℕ) (os : List OwnerInfo) (o : OwnerInfo)
    → entry_at i os ≡ some o
    → total_records os ≡ o.record_cnt + total_records (remove_at i os)
unfolding entry_at remove_at
total_records-remove_at zero [] o e = cc
total_records-remove_at (suc i) [] o e = cc
total_records-remove_at zero (x ∷ os) o e = ground arith
total_records-remove_at (suc i) (x ∷ os) o e = omega (arith, total_records-remove_at i os o e)

-- Each record below the counter has one owner, among the entries pushed or under way, and no other
-- record has any.
record IsPartition (s : MasterState) : Type 0 where
  below : s.next_rid < 2 ^ 32
  one_owner :
      (rid : ℕ)
      → owners_of rid s.clients + owners_of rid s.pending ≡ (if ltb rid s.next_rid then 1 else 0)
  counted : total_records s.clients + total_records s.pending ≡ s.next_rid

-- A push takes its entry from those under way to the clients, and acknowledges its range.
pub push_cases :
    (s t : MasterState) (i first : ℕ)
    → push s i ≡ some (t, first)
    → (o : OwnerInfo) × (entry_at i s.pending ≡ some o)
      × (t.clients ≡ s.clients ++ (o ∷ []))
      × (t.pending ≡ remove_at i s.pending)
      × (t.next_rid ≡ s.next_rid)
      × (first ≡ o.first_record_id)
unfolding push
push_cases s t i first e = elim (Option-cases (entry_at i s.pending)) [
  | inl missing ↦ absurd (ground (arith, missing))
  | inr (o, found) ↦ (
    o,
    found,
    ground (arith, found),
    ground (arith, found),
    ground (arith, found),
    ground (arith, found),
  )
]

Step-IsPartition : {s t : MasterState} → Step s t → IsPartition s → IsPartition t
unfolding reserve
Step-IsPartition {s} {t} (reserves reg addr fits e) v = record {
  below = ground arith;
  one_owner = λ rid. ground (arith, v.one_owner rid);
  counted = ground (arith, v.counted);
}
Step-IsPartition {s} {t} (pushes i first e) v =
    let (o, found, clients, pending, counter, ack) = push_cases s t i first e in
    record {
      below = ground (arith, counter);
      one_owner = λ rid. ground (
        arith,
        ap (owners_of rid) clients,
        ap (owners_of rid) pending,
        counter,
        owners_of-append rid s.clients (o ∷ []),
        owners_of-remove_at rid i s.pending o found,
        v.one_owner rid,
      );
      counted = omega (
        arith,
        ap total_records clients,
        ap total_records pending,
        counter,
        total_records-append s.clients (o ∷ []),
        total_records-remove_at i s.pending o found,
      );
    }

Reach-IsPartition : {s : MasterState} → Reach s → IsPartition s
Reach-IsPartition start = record {
  below = omega arith;
  one_owner = λ rid. ground arith;
  counted = refl;
}
Reach-IsPartition (next r step) = Step-IsPartition step (Reach-IsPartition r)

-- In every state that interleaved register handlers reach, with a counter that has not wrapped,
-- each record below the counter is owned by exactly one entry pushed or under way, any other record
-- by none, and the counts of the entries add up to the counter.
pub Reach-owners_of :
    {s : MasterState} (rid : ℕ)
    → Reach s
    → (owners_of rid s.clients + owners_of rid s.pending ≡ (if ltb rid s.next_rid then 1 else 0))
      × (total_records s.clients + total_records s.pending ≡ s.next_rid)
Reach-owners_of rid r = let v = Reach-IsPartition r in (v.one_owner rid, v.counted)

position-owners_of :
    (rid : ℕ) (os : List OwnerInfo)
    → 0 < owners_of rid os
    → (idx : ℕ) × (o : OwnerInfo) × (position (owns rid) os ≡ some idx)
      × (get_elem? os idx ≡ some o)
      × (owns rid o ≡ true)
position-owners_of rid [] h = absurd (omega arith)
position-owners_of rid (o ∷ os) h = elim (Bool-cases (owns rid o)) [
  | inl here ↦ (0, o, rw (here, position), refl, here)
  | inr there ↦
      let (idx, o', found, at, mine) = position-owners_of rid os (ground (arith, there)) in
      (suc idx, o', rw (there, position, found), at, mine)
]

-- In a reachable state with no handler under way, the search of a client finds for each record
-- below the total of the directory an entry whose range contains it.
pub Reach-position :
    {s : MasterState} (rid : ℕ)
    → Reach s
    → s.pending ≡ []
    → rid < total_records s.clients
    → (idx : ℕ) × (o : OwnerInfo) × (position (owns rid) s.clients ≡ some idx)
      × (get_elem? s.clients idx ≡ some o)
      × (owns rid o ≡ true)
Reach-position {s} rid r idle below =
    let (one, counted) = Reach-owners_of rid r in
    position-owners_of rid s.clients (ground (arith, one, counted))
