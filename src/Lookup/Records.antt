-- ===== src/Lookup/Records.antt =====
-- examples/urma_lookup.rs: the records of a client in its memory, and the reads of them that the
-- data service of the hook transport answers. Memory is the list of its bytes; `none` is a panic of
-- a slice that is out of range.
pub mod Memory
pub mod Served
use urma_rs.Base.{
  ℕ, zero, suc, ◌+◌, ◌-◌, ◌*◌, ◌/◌, ◌%◌, ◌^◌, ltb, leb, ◌&&◌, List, [], ◌∷◌, ◌++◌, Option, none,
  some, length, take, drop, replicate, min, if◌then◌else◌,
}
use urma_rs.Common.Message.{msg_size}

-- `copy_from_slice` into a range of the memory that begins at an offset.
unfoldable pub copy_at : ℕ → List ℕ → List ℕ → List ℕ
copy_at zero [] buf = buf
copy_at zero (b ∷ bs) [] = []
copy_at zero (b ∷ bs) (c ∷ buf) = b ∷ copy_at zero bs buf
copy_at (suc off) bs [] = []
copy_at (suc off) bs (c ∷ buf) = c ∷ copy_at off bs buf

abbrev pub slice : ℕ → ℕ → List ℕ → List ℕ
slice off n buf = take n (drop off buf)

-- Display of a u32, which has ten digits at most.
unfoldable pub decimal_from : ℕ → ℕ → List ℕ → List ℕ
decimal_from zero n s = s
decimal_from (suc left) n s =
    let s' = (b'0' + n % 10) ∷ s in
    let more = decimal_from left (n / 10) s' in if ltb n 10 then s' else more

unfoldable pub decimal : ℕ → List ℕ
unfolding decimal_from
decimal n = decimal_from 10 n []

-- "record {rid} from {name}".
unfoldable pub record_text : ℕ → List ℕ → List ℕ
record_text rid name =
    b'r'
    ∷ b'e'
    ∷ b'c'
    ∷ b'o'
    ∷ b'r'
    ∷ b'd'
    ∷ b' '
    ∷ (decimal rid ++ (b' ' ∷ b'f' ∷ b'r' ∷ b'o' ∷ b'm' ∷ b' ' ∷ name))

-- One round of the loop of step 2: the window is filled with zeros, then the text is copied.
unfoldable pub write_record : ℕ → List ℕ → List ℕ → Option (List ℕ)
unfolding copy_at
write_record off s buf =
    if ltb (length buf) (off + msg_size)
    then none
    else some (
        copy_at off (take (min (length s) (msg_size - 1)) s)
          (copy_at off (replicate msg_size 0) buf))

-- Step 2 of `run_client`: `left` records from index `i` on; the id is a sum of two u32.
unfoldable pub write_records : ℕ → List ℕ → ℕ → ℕ → List ℕ → Option (List ℕ)
write_records my_first name zero i buf = some buf
write_records my_first name (suc left) i buf =
    elim (write_record (i * msg_size) (record_text ((my_first + i) % 2 ^ 32) name) buf) [
      | none ↦ none
      | some buf' ↦ write_records my_first name left (suc i) buf'
    ]

-- `HookState`.
pub record HookState : Type 0 where
  pub buf : List ℕ
  pub my_first : ℕ
  pub record_cnt : ℕ

-- `hook_record`: the status and the body. The sum of two u32 wraps.
unfoldable pub hook_record : HookState → ℕ → Option (ℕ × List ℕ)
hook_record st rid =
    if leb st.my_first rid && ltb rid ((st.my_first + st.record_cnt) % 2 ^ 32)
    then if ltb (length st.buf) ((rid - st.my_first) * msg_size + msg_size)
      then none
      else some (200, slice ((rid - st.my_first) * msg_size) msg_size st.buf)
    else some (404, [])
