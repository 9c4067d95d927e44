-- ===== src/Lookup/Flow.antt =====
-- examples/urma_lookup.rs: the trait `Transport`, `run_client` over any of them, and the arguments.
pub mod Planned
pub mod Complete
use urma_rs.Base.{
  ℕ, zero, suc, ◌+◌, ◌^◌, ◌%◌, ◌==◌, ltb, leb, ◌&&◌, ◌||◌, Bool, true, false, not, is_none, String,
  List, [], ◌∷◌, Option, none, some, position, get_elem?, if◌then◌else◌,
}
use urma_rs.Error.{Result, ok, err, invalid, record_has_no_owner}
use urma_rs.Common.Desc.{PeerDesc}
use urma_rs.Common.Http.{Http, Net, NetIo, ◌>>=◌, ◌>>◌, pure, lift, reads, send_retry, json_retry}
use urma_rs.Lookup.Master.{OwnerInfo, RegisterMsg, owns, max_records_per_client}
use urma_rs.Lookup.Client.{is_own}
use urma_rs.Lookup.Records.{write_records}

pub data Request : Type 0 where
  register : RegisterMsg → Request
  ready done : Request
  -- `GET /record/{rid}` at the address and the data port of an owner.
  get_record : List ℕ → ℕ → ℕ → Request

-- `RegisterAck` and `Directory` in JSON, bytes, or no body.
pub data Body : Type 0 where
  ack : ℕ → Body
  directory : List OwnerInfo → Body
  bytes : List ℕ → Body
  nothing : Body

abbrev pub parse_ack : Body → Option ℕ
parse_ack (ack first) = some first
parse_ack _ = none

abbrev pub parse_directory : Body → Option (List OwnerInfo)
parse_directory (directory owners) = some owners
parse_directory _ = none

-- The state of a transport is `S`; a read yields an `R`. `with_buf` answers `none` on a panic.
pub record Transport (S R : Type 0) : Type 0 where
  pub init : NetIo Request S (Unit {0})
  pub data_port : S → ℕ
  pub desc : NetIo Request S PeerDesc
  pub set_first : ℕ → S → S
  pub with_buf : (List ℕ → Option (List ℕ)) → S → Option S
  pub import : ℕ → OwnerInfo → NetIo Request S (Unit {0})
  pub read_record : ℕ → OwnerInfo → ℕ → NetIo Request S R

pub record ClientCfg : Type 0 where
  pub name : List ℕ
  pub records : ℕ

-- The sum of the counts, in u32.
unfoldable pub total_of : List OwnerInfo → ℕ
total_of [] = 0
total_of (o ∷ os) = (o.record_cnt + total_of os) % 2 ^ 32

abbrev set_local : {S : Type 0} → S → NetIo Request S (Unit {0})
set_local s n = (some (ok tt), record n { local = s })

module _ {S R : Type 0} (tr : Transport S R) where
  -- Step 2: the records are written where the transport keeps them.
  unfoldable pub put_records : ClientCfg → ℕ → NetIo Request S (Unit {0})
  put_records cfg my_first n =
      elim (tr.with_buf (write_records my_first cfg.name cfg.records 0)
        (tr.set_first my_first n.local)) [ none ↦ (none, n) | some s ↦ set_local s n ]

  -- Step 4: the entries from index `idx` on; the own one is skipped.
  unfoldable pub import_all : ℕ → ℕ → ℕ → List OwnerInfo → NetIo Request S (Unit {0})
  import_all my_first records idx [] = pure tt
  import_all my_first records idx (o ∷ owners) =
      let rest = import_all my_first records (suc idx) owners in
      if o.first_record_id == my_first && o.record_cnt == records
      then rest
      else (do tr.import idx o; rest)

  -- Step 5: `left` records from `rid` on; the result is what was read, which is then printed.
  unfoldable pub fetch_records : ℕ → ℕ → List OwnerInfo → ℕ → ℕ → NetIo Request S (List R)
  fetch_records my_first records owners zero rid = pure []
  fetch_records my_first records owners (suc left) rid = elim (position (owns rid) owners) [
    | none ↦ lift (err (invalid (record_has_no_owner rid)))
    | some idx ↦ elim (get_elem? owners idx) [
      | none ↦ lift (err (invalid (record_has_no_owner rid)))
      | some o ↦ elim (is_own my_first records rid) [
        | true ↦ fetch_records my_first records owners left (suc rid)
        | false ↦ (do
          got ← tr.read_record idx o rid
          rest ← fetch_records my_first records owners left (suc rid)
          pure (got ∷ rest))
      ]
    ]
  ]

  -- Steps 3 to 5.
  unfoldable pub fetch_directory : Http Request Body → ClientCfg → ℕ → ℕ → NetIo Request S (List R)
  fetch_directory http cfg fuel my_first = do
    owners ← json_retry http parse_directory fuel ready
    import_all my_first cfg.records 0 owners
    fetch_records my_first cfg.records owners (total_of owners) 0

  -- Steps 1 and 2: the start of the range that the master assigned.
  unfoldable pub register_records : Http Request Body → ClientCfg → ℕ → NetIo Request S ℕ
  register_records http cfg fuel = do
    tr.init
    my ← tr.desc
    port ← reads (λ n. tr.data_port n.local)
    first ← json_retry http parse_ack fuel (
        register
          (record { name = cfg.name; record_cnt = cfg.records; desc = my; data_port = port }))
    put_records cfg first
    pure first

  unfoldable pub run_client : Http Request Body → ClientCfg → ℕ → NetIo Request S (List R)
  run_client http cfg fuel = do
    my_first ← register_records http cfg fuel
    got ← fetch_directory http cfg fuel my_first
    released ← send_retry http fuel done
    pure got

pub record Args : Type 0 where
  pub as_master : Bool
  pub tcp_hook : Bool
  pub clients : ℕ
  pub dev_name : Option (List ℕ)
  pub master_ip : Option (List ℕ)
  pub records : ℕ
  pub port : ℕ
  pub name : Option (List ℕ)

-- `Args::validate`: `none` where nothing is wrong, and else the message.
unfoldable pub validate : Args → Option String
validate a =
    if a.records == 0 || ltb max_records_per_client a.records
    then some "records per client must be in [1, 64]"
    else if not a.as_master && is_none a.master_ip
    then some "client mode requires -m <master_ip>"
    else if not a.as_master && (not a.tcp_hook && is_none a.dev_name)
    then some "URMA mode requires -d <device> (or use --tcp-hook)"
    else none
