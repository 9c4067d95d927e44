-- ===== src/Error.antt =====
-- src/error.rs: the error type and `check_status`. The text of a message is one constructor for
-- each format string, with the values that it shows.
use urma_rs.Base.{ℕ, ℤ, ◌==ℤ◌, Bool, String, List, if◌then◌else◌}
use urma_rs.Ffi.Consts.{urma_success}
use urma_rs.Urma.Modes.{TransMode, TpType}

-- One line of what `check_mode_support` of the examples finds missing; the flag says that the mode
-- allows CTP and the device gate is off.
pub data Missing : Type 0 where
  transport_mode_rm : Missing
  ctp_for_rm : Bool → Missing
  multi_path_for_rm : Missing
  -- The same of urma_cli and urma_bench, for the mode and the tp type chosen.
  transport_mode multi_path_for : TransMode → Missing
  tp_type_for : TpType → TransMode → Bool → Missing

pub data Message : Type 0 where
  -- A message without arguments, as it stands in the source.
  text : String → Message
  -- "device '{dev_name}' not found, see list_devices()" and "no eid on device '{dev_name}'".
  device_not_found no_eid_on_device : List ℕ → Message
  -- "jfs priority {priority} is out of range 0..={max}".
  priority_out_of_range : ℕ → ℕ → Message
  -- "{what} blob too short: {len} < {min}".
  blob_too_short : String → ℕ → ℕ → Message
  -- "{len} local sges exceed max_sge {max_sge} (see JettyOpts::max_sge)".
  local_sges_exceed_max_sge : ℕ → ℕ → Message
  -- "bad layout: {e}", of a layout with this length and alignment.
  bad_layout : ℕ → ℕ → Message
  -- "local range [{off}, +{len}) exceeds segment (len {seg_len})".
  local_range_exceeds_segment : ℕ → ℕ → ℕ → Message
  -- "device '{dev}' does not support the CTP-RM mode these examples run; missing: ...".
  mode_not_supported : List ℕ → List Missing → Message
  -- "record {rid} has no owner", "fetch record {rid} from '{name}': http status {status}" and
  -- "record {rid}: bad body len {len}".
  record_has_no_owner : ℕ → Message
  fetch_http_status : ℕ → ℕ → Message
  bad_body_len : ℕ → ℕ → Message
  -- "http status {status}".
  http_status : ℕ → Message
  -- "owner '{name}' has no data port".
  owner_has_no_data_port : List ℕ → Message
  -- "bad hex digit '{c}'", "descriptor truncated at {what}", the same with a number behind it, and
  -- "{n} trailing bytes in descriptor".
  bad_hex_digit : ℕ → Message
  truncated_at : String → Message
  truncated_at_nth : String → ℕ → Message
  trailing_bytes : ℕ → Message
  -- "device '{dev}' does not support it; missing: ...".
  not_supported : List ℕ → List Missing → Message
  -- "msg is {len} bytes, exceeds buf-len {buf_len}".
  msg_exceeds_buf_len : ℕ → ℕ → Message
  -- "offset {offset} + len {len} exceeds the peer segment length {seg_len}".
  offset_exceeds_peer : ℕ → ℕ → ℕ → Message
  -- "{what}: byte {i} is {b:#x}, expected {want:#x} - wrong offset/length or corrupted transfer".
  bad_pattern : String → ℕ → ℕ → ℕ → Message
  -- "bad size '{tok}' in {what}", "size '{tok}' overflows", "{what} contains 0" and
  -- "size {n} in {what} exceeds the u32 sge length limit".
  bad_size : List ℕ → String → Message
  size_overflows : List ℕ → Message
  contains_zero : String → Message
  size_exceeds_sge : ℕ → String → Message
  -- "empty size range {first}..{last}".
  empty_size_range : ℕ → ℕ → Message
  -- "--post-list must be 1..=depth ({depth}): ...", "--depth {depth} exceeds the device's queue
  -- ceilings ...; use at most {limit}" and "--jetties {want} but the descriptor carries {n} rjetty
  -- blob(s): ...".
  post_list_range : ℕ → Message
  depth_exceeds_ceiling : ℕ → ℕ → Message
  too_few_blobs : ℕ → ℕ → Message
  -- "client asked for {n} bytes but the buffer holds {len} (raise --buf-len on serve-tcp)".
  exceeds_buffer : ℕ → ℕ → Message

pub data Error : Type 0 where
  not_found : Message → Error
  null : String → ℤ → Error
  status : ℤ → String → Error
  poll_timeout : ℕ → Error
  bad_completion : ℤ → ℕ → Error
  invalid : Message → Error
  -- An error of std::io, known by its kind.
  io : ℕ → Error

pub data Result {ℓ} (A : Type ℓ) : Type ℓ where
  ok : A → Result A
  err : Error → Result A

-- `?` on a `Result`.
infixl 5 ◌>>=◌
abbrev pub ◌>>=◌ {ℓ κ} : {A : Type ℓ} {B : Type κ} → Result A → (A → Result B) → Result B
err e >>= next = err e
ok x >>= next = next x

-- What holds of a result that is no error.
abbrev pub Ensures {ℓ κ} : {A : Type ℓ} → (A → Type κ) → Result A → Type κ
Ensures P (ok a) = P a
Ensures P (err e) = Unit

pub then-Ensures {ℓ κ μ ν} :
    {A : Type ℓ} {B : Type κ} (P : A → Type μ) (Q : B → Type ν) (m : Result A) (f : A → Result B)
    → Ensures P m
    → ((x : A) → P x → Ensures Q (f x))
    → Ensures Q (m >>= f)
then-Ensures P Q (ok x) f h k = k x h
then-Ensures P Q (err e) f h k = tt

unfoldable pub check_status : ℤ → String → Result (Unit {0})
check_status st what = if st ==ℤ urma_success then ok tt else err (status st what)
