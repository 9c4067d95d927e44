-- ===== src/Lookup/Client/Reads.antt =====
-- Where the records of an owner lie in its memory.
use urma_rs.Base.{ℕ, ◌+◌, ◌^◌, ◌≤◌, ◌<◌, ◌≡◌, true, arith}
use urma_rs.Common.Message.{msg_size}
use urma_rs.Lookup.Master.{OwnerInfo, owns, max_records_per_client}
use urma_rs.Lookup.Client.{scratch_off, buf_len, remote_va_of}

-- For an owner with at most 64 records, a range below 2^32 and a buffer inside the address space,
-- the 64 bytes of an owned record lie inside its buffer, before the landing window, which itself
-- fits the buffer.
pub remote_va_of-bounds :
    (o : OwnerInfo) (rid : ℕ)
    → owns rid o ≡ true
    → o.first_record_id + o.record_cnt < 2 ^ 32
    → o.record_cnt ≤ max_records_per_client
    → o.desc.seg_va + buf_len < 2 ^ 64
    → (o.desc.seg_va ≤ remote_va_of o rid)
      × (remote_va_of o rid + msg_size ≤ o.desc.seg_va + scratch_off)
      × (scratch_off + msg_size ≤ buf_len)
unfolding remote_va_of buf_len
remote_va_of-bounds o rid mine fits few room = ground arith

-- For an owner with at most 64 records, a range below 2^32 and a buffer inside the address space,
-- the 64 bytes of an owned record end before any later owned record begins.
pub remote_va_of-disjoint :
    (o : OwnerInfo) (a b : ℕ)
    → owns a o ≡ true
    → owns b o ≡ true
    → o.first_record_id + o.record_cnt < 2 ^ 32
    → o.record_cnt ≤ max_records_per_client
    → o.desc.seg_va + buf_len < 2 ^ 64
    → a < b
    → remote_va_of o a + msg_size ≤ remote_va_of o b
unfolding remote_va_of buf_len
remote_va_of-disjoint o a b mine_a mine_b fits few room lt = ground arith
