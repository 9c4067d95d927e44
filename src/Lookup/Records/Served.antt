-- ===== src/Lookup/Records/Served.antt =====
-- What a client wrote is what its data service answers.
use urma_rs.Base.{
  length-take, ℕ, zero, suc, ◌+◌, ◌-◌, ◌*◌, ◌%◌, ◌^◌, ◌≤◌, ◌<◌, ◌≡◌, refl, ap, sym, ◌∙◌, ltb, leb,
  ◌==◌, ◌&&◌, List, [], ◌++◌, some, length, take, replicate, min, if◌then◌else◌, arith, Bool-cases,
  inl, inr, ◌≢◌,
}
use urma_rs.Common.Message.{fill_msg}
use urma_rs.Common.Laws.{length-fill}
use urma_rs.Lookup.Records.{copy_at, slice, record_text, write_record, write_records, hook_record}
use urma_rs.Lookup.Records.Memory.{
  length-copy_at, slice-copy_at, slice-copy_at_below, slice-copy_at_above, copy_at-zeros,
}

pub length-fill_msg : (s : List ℕ) → length (fill_msg s) ≡ 64
unfolding fill_msg
length-fill_msg s =
    let n = min (length s) 63 in length-fill n s (64 - n) (omega arith) ∙ omega arith

-- One record is written as a fixed-length message.
write_record-fill_msg :
    (off : ℕ) (s buf : List ℕ)
    → off + 64 ≤ length buf
    → write_record off s buf ≡ some (copy_at off (fill_msg s) buf)
unfolding write_record fill_msg
write_record-fill_msg off s buf h =
    let n = min (length s) 63 in
    let len = length-take n s (omega arith) in
    ground (
      arith,
      copy_at-zeros off 64 (take n s) buf (omega (arith, len)),
      ap (λ (k : ℕ). copy_at off (take n s ++ replicate {A = ℕ} (64 - k) 0) buf) len,
    )

module _ (i : ℕ) (s buf : List ℕ) where
  slice-write_self :
      i * 64 + 64 ≤ length buf → slice (i * 64) 64 (copy_at (i * 64) (fill_msg s) buf) ≡ fill_msg s
  slice-write_self h =
      ap (λ (k : ℕ). slice (i * 64) k (copy_at (i * 64) (fill_msg s) buf)) (sym (length-fill_msg s))
      ∙ slice-copy_at (i * 64) (fill_msg s) buf (omega (arith, length-fill_msg s))

  slice-write_ne :
      (j : ℕ)
      → j ≢ i
      → slice (j * 64) 64 (copy_at (i * 64) (fill_msg s) buf) ≡ slice (j * 64) 64 buf
  slice-write_ne j h = elim (Bool-cases (ltb j i)) [
    | inl below ↦ slice-copy_at_below (j * 64) 64 (i * 64) (fill_msg s) buf (ground arith)
    | inr above ↦
        slice-copy_at_above (j * 64) 64 (i * 64) (fill_msg s) buf
          (let lt : i < j = ground arith in omega (arith, length-fill_msg s))
  ]

module _ (my_first : ℕ) (name : List ℕ) where
  -- The message of record `i`.
  abbrev pub message : ℕ → List ℕ
  message i = fill_msg (record_text ((my_first + i) % 2 ^ 32) name)

  write_records-slice :
      (left i : ℕ) (buf : List ℕ)
      → (i + left) * 64 ≤ length buf
      → (buf' : List ℕ) × (write_records my_first name left i buf ≡ some buf')
        × (length buf' ≡ length buf)
        × ((j : ℕ)
            → slice (j * 64) 64 buf'
              ≡ (if leb i j && ltb j (i + left) then message j else slice (j * 64) 64 buf))
  unfolding write_records
  write_records-slice zero i buf h = (buf, refl, refl, λ j. ground arith)
  write_records-slice (suc left) i buf h =
      let b1 = copy_at (i * 64) (message i) buf in
      let len = length-copy_at (i * 64) (message i) buf in
      let (buf', e, len', at) = write_records-slice left (suc i) b1 (omega (arith, len)) in
      let w =
        write_record-fill_msg (i * 64) (record_text ((my_first + i) % 2 ^ 32) name) buf
          (omega arith) in
      (
        buf',
        rw (w, write_records) e,
        len' ∙ len,
        λ j. elim (Bool-cases (j == i)) [
          | inl here ↦
              let j_eq : j ≡ i = ground arith in
              at j
              ∙ ground (
                arith,
                slice-write_self i (record_text ((my_first + i) % 2 ^ 32) name) buf (omega arith),
                ap (λ (k : ℕ). slice (k * 64) 64 b1) j_eq,
                ap message j_eq,
              )
          | inr there ↦
              at j
              ∙ ground (
                arith,
                slice-write_ne i (record_text ((my_first + i) % 2 ^ 32) name) buf j (ground arith),
              )
        ],
      )

  pub hook_record-write_records :
      (cnt rid : ℕ) (buf : List ℕ)
      → cnt * 64 ≤ length buf
      → my_first + cnt < 2 ^ 32
      → (buf' : List ℕ) × (write_records my_first name cnt 0 buf ≡ some buf')
        × (hook_record (record { buf = buf'; my_first = my_first; record_cnt = cnt }) rid
            ≡ some (
                if leb my_first rid && ltb rid (my_first + cnt)
                then (200, fill_msg (record_text rid name))
                else (404, [])))
  unfolding hook_record
  hook_record-write_records cnt rid buf h fits =
      let (buf', e, len, at) = write_records-slice cnt 0 buf (omega arith) in
      (
        buf',
        e,
        elim (Bool-cases (leb my_first rid && ltb rid (my_first + cnt))) [
          | inl own ↦
              let back : (my_first + (rid - my_first)) % 2 ^ 32 ≡ rid = ground arith in
              ground (
                arith,
                at (rid - my_first),
                len,
                ap (λ (k : ℕ). fill_msg (record_text k name)) back,
              )
          | inr foreign ↦ ground arith
        ],
      )
