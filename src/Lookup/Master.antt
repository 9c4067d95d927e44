-- ===== src/Lookup/Master.antt =====
-- examples/urma_lookup.rs: the master. `m_register` reserves a range by one atomic step and pushes
-- the entry by a later one, so that handlers of several clients interleave between the two.
pub mod Ranges
use urma_rs.Base.{
  ℕ, zero, suc, ◌+◌, ◌^◌, ◌%◌, ◌<◌, ◌==◌, ltb, leb, ◌||◌, ◌&&◌, Bool, true, false, List, [], ◌∷◌,
  ◌++◌, ◌≡◌, Option, none, some, if◌then◌else◌,
}
use urma_rs.Common.Desc.{PeerDesc}

abbrev pub max_clients : ℕ
max_clients = 16

abbrev pub max_records_per_client : ℕ
max_records_per_client = 64

pub record OwnerInfo : Type 0 where
  pub name : List ℕ
  pub first_record_id : ℕ
  pub record_cnt : ℕ
  pub desc : PeerDesc
  pub peer_addr : List ℕ
  pub data_port : ℕ

pub record RegisterMsg : Type 0 where
  pub name : List ℕ
  pub record_cnt : ℕ
  pub desc : PeerDesc
  pub data_port : ℕ

-- `pending` holds the entries of handlers that stand between the two steps.
pub record MasterState : Type 0 where
  pub clients : List OwnerInfo
  pub next_rid : ℕ
  pub pending : List OwnerInfo

abbrev pub init_master : MasterState
init_master = record { clients = []; next_rid = 0; pending = [] }

-- The guard of `m_register`.
unfoldable pub bad_register : RegisterMsg → Bool
bad_register reg = reg.record_cnt == 0 || ltb max_records_per_client reg.record_cnt

-- The entry that a handler builds on the range that it reserved.
abbrev pub owner_info : RegisterMsg → List ℕ → ℕ → OwnerInfo
owner_info reg peer_addr first = record {
  name = reg.name;
  first_record_id = first;
  record_cnt = reg.record_cnt;
  desc = reg.desc;
  peer_addr = peer_addr;
  data_port = reg.data_port;
}

-- The handler up to `fetch_add`, which wraps on u32. `none` is the answer 400.
unfoldable pub reserve : MasterState → RegisterMsg → List ℕ → Option MasterState
unfolding bad_register
reserve st reg peer_addr =
    if bad_register reg
    then none
    else some (record st {
      next_rid = (st.next_rid + reg.record_cnt) % 2 ^ 32;
      pending = owner_info reg peer_addr st.next_rid ∷ st.pending;
    })

-- The rest of a handler, of entry `i` of those under way: the push on `clients`, and the ack with
-- the start of the range.
unfoldable pub remove_at : ℕ → List OwnerInfo → List OwnerInfo
remove_at i [] = []
remove_at zero (o ∷ os) = os
remove_at (suc i) (o ∷ os) = o ∷ remove_at i os

unfoldable pub entry_at : ℕ → List OwnerInfo → Option OwnerInfo
entry_at i [] = none
entry_at zero (o ∷ os) = some o
entry_at (suc i) (o ∷ os) = entry_at i os

unfoldable pub push : MasterState → ℕ → Option (MasterState × ℕ)
unfolding remove_at entry_at
push st i = elim (entry_at i st.pending) [
  | none ↦ none
  | some o ↦ some (
    record st { clients = st.clients ++ (o ∷ []); pending = remove_at i st.pending },
    o.first_record_id,
  )
]

-- One step of some handler; a reservation that would wrap the counter is left out here.
pub data Step (s : MasterState) : MasterState → Type 0 where
  reserves :
      (reg : RegisterMsg) (peer_addr : List ℕ) {t : MasterState}
      → s.next_rid + reg.record_cnt < 2 ^ 32
      → reserve s reg peer_addr ≡ some t
      → Step s t
  pushes : (i first : ℕ) {t : MasterState} → push s i ≡ some (t, first) → Step s t

pub data Reach : MasterState → Type 0 where
  start : Reach init_master
  next : {s t : MasterState} → Reach s → Step s t → Reach t

-- The test by which clients look for the owner of a record; the sum is one of u32.
abbrev pub owns : ℕ → OwnerInfo → Bool
owns rid o = leb o.first_record_id rid && ltb rid ((o.first_record_id + o.record_cnt) % 2 ^ 32)
