-- ===== src/Tests/Directory.antt =====
-- The directory of the lookup example, and its client.
use urma_rs.Base.{arith, ℕ, ◌≡◌, ◌≤◌, ◌+◌, refl, [], ◌∷◌, ltb, if◌then◌else◌}
use urma_rs.Common.Desc.{PeerDesc}
use urma_rs.Common.Message.{msg_size}
use urma_rs.Lookup.Master.{
  OwnerInfo, RegisterMsg, MasterState, reserve, push, owner_info, Reach, start, next, reserves,
  pushes,
}
use urma_rs.Lookup.Master.Ranges.{owners_of, total_records, Reach-owners_of}
use urma_rs.Lookup.Client.{remote_va_of, scratch_off, buf_len}
use urma_rs.Lookup.Client.Reads.{remote_va_of-bounds}
use urma_rs.Tests.Library.{eid}

abbrev desc : PeerDesc
desc = record {
  eid = eid;
  uasid = 0;
  seg_va = 4096;
  seg_len = 8192;
  seg_flag = 0;
  seg_token_id = 1;
  jetty_eid = eid;
  jetty_uasid = 0;
  jetty_id = 5;
  seg_ctx = [];
  rjetty = [];
}

abbrev reg : ℕ → RegisterMsg
reg n = record { name = 65 ∷ []; record_cnt = n; desc = desc; data_port = 0 }

abbrev entry : ℕ → ℕ → OwnerInfo
entry first n = owner_info (reg n) [] first

-- Two handlers have reserved their ranges, and the first of them has pushed its entry.
abbrev halfway : MasterState
halfway = record { clients = entry 0 3 ∷ []; next_rid = 5; pending = entry 3 2 ∷ [] }

abbrev both : MasterState
both = record { clients = []; next_rid = 5; pending = entry 3 2 ∷ entry 0 3 ∷ [] }

abbrev one : MasterState
one = record { clients = []; next_rid = 3; pending = entry 0 3 ∷ [] }

halfway-Reach : Reach halfway
unfolding reserve push
halfway-Reach =
    next
      (next (next start (reserves (reg 3) [] {t = one} (omega arith) refl))
        (reserves (reg 2) [] {t = both} (omega arith) refl))
      (pushes 1 0 refl)

Reach-owners_of_example :
    (owners_of 4 halfway.clients + owners_of 4 halfway.pending ≡ (if ltb 4 5 then 1 else 0))
    × (total_records halfway.clients + total_records halfway.pending ≡ 5)
Reach-owners_of_example = Reach-owners_of 4 halfway-Reach

remote_va_of-bounds_example :
    (4096 ≤ remote_va_of (entry 3 2) 4)
    × (remote_va_of (entry 3 2) 4 + msg_size ≤ 4096 + scratch_off)
    × (scratch_off + msg_size ≤ buf_len)
unfolding buf_len
remote_va_of-bounds_example =
    remote_va_of-bounds (entry 3 2) 4 refl (omega arith) (omega arith) (omega arith)
