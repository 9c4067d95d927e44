-- ===== src/Urma/Values.antt =====
-- src/urma.rs, the basic value types, and the C structs of src/ffi.rs behind them.
use urma_rs.Base.{ℕ, List}

-- `urma_eid_t`: sixteen raw bytes.
pub record UrmaEid : Type 0 where
  pub raw : List ℕ

-- The newtype `Eid(pub [u8; 16])`.
pub record Eid : Type 0 where
  pub bytes : List ℕ

pub record UrmaJettyId : Type 0 where
  pub eid : UrmaEid
  pub uasid : ℕ
  pub id : ℕ

pub record JettyId : Type 0 where
  pub eid : Eid
  pub uasid : ℕ
  pub id : ℕ

pub record SegDesc : Type 0 where
  pub eid : Eid
  pub uasid : ℕ
  pub va : ℕ
  pub len : ℕ
  pub attr : ℕ
  pub token_id : ℕ

unfoldable pub eid_from_raw : UrmaEid → Eid
eid_from_raw raw = record { bytes = raw.raw }

unfoldable pub eid_to_raw : Eid → UrmaEid
eid_to_raw e = record { raw = e.bytes }

unfoldable pub jetty_id_from_raw : UrmaJettyId → JettyId
unfolding eid_from_raw
jetty_id_from_raw raw = record { eid = eid_from_raw raw.eid; uasid = raw.uasid; id = raw.id }

unfoldable pub jetty_id_to_raw : JettyId → UrmaJettyId
unfolding eid_to_raw
jetty_id_to_raw j = record { eid = eid_to_raw j.eid; uasid = j.uasid; id = j.id }
