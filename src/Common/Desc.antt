-- ===== src/Common/Desc.antt =====
-- examples/common/mod.rs: `PeerDesc` and the loopback guard.
use urma_rs.Base.{ℕ, ◌==◌, Bool, true, false, ◌&&◌, List, [], ◌∷◌, replicate, if◌then◌else◌}
use urma_rs.Error.{Result, ok, err, invalid, text}
use urma_rs.Urma.Values.{SegDesc, JettyId}

pub record PeerDesc : Type 0 where
  pub eid : List ℕ
  pub uasid : ℕ
  pub seg_va : ℕ
  pub seg_len : ℕ
  pub seg_flag : ℕ
  pub seg_token_id : ℕ
  pub jetty_eid : List ℕ
  pub jetty_uasid : ℕ
  pub jetty_id : ℕ
  pub seg_ctx : List ℕ
  pub rjetty : List ℕ

-- The derived `PeerDesc::default`, which stands for the descriptor in hook mode.
abbrev pub default_desc : PeerDesc
default_desc = record {
  eid = replicate 16 0;
  uasid = 0;
  seg_va = 0;
  seg_len = 0;
  seg_flag = 0;
  seg_token_id = 0;
  jetty_eid = replicate 16 0;
  jetty_uasid = 0;
  jetty_id = 0;
  seg_ctx = [];
  rjetty = [];
}

-- `PeerDesc::of`.
unfoldable pub desc_of : SegDesc → JettyId → List ℕ → List ℕ → PeerDesc
desc_of seg jetty seg_ctx rjetty = record {
  eid = seg.eid.bytes;
  uasid = seg.uasid;
  seg_va = seg.va;
  seg_len = seg.len;
  seg_flag = seg.attr;
  seg_token_id = seg.token_id;
  jetty_eid = jetty.eid.bytes;
  jetty_uasid = jetty.uasid;
  jetty_id = jetty.id;
  seg_ctx = seg_ctx;
  rjetty = rjetty;
}

unfoldable pub to_pair : PeerDesc → SegDesc × JettyId
to_pair d = (
  record {
    eid = record { bytes = d.eid };
    uasid = d.uasid;
    va = d.seg_va;
    len = d.seg_len;
    attr = d.seg_flag;
    token_id = d.seg_token_id;
  },
  record { eid = record { bytes = d.jetty_eid }; uasid = d.jetty_uasid; id = d.jetty_id },
)

-- Equality of two eids.
unfoldable pub same_bytes : List ℕ → List ℕ → Bool
same_bytes [] [] = true
same_bytes [] (b ∷ bs) = false
same_bytes (a ∷ as') [] = false
same_bytes (a ∷ as') (b ∷ bs) = a == b && same_bytes as' bs

unfoldable pub check_loopback : PeerDesc → PeerDesc → Result (Unit {0})
unfolding same_bytes
check_loopback my peer =
    if same_bytes my.eid peer.eid
    then err (
        invalid (
          text
            "peer EID equals the local EID (single-machine loopback): this urma library/driver build core-dumps on self-import; run the two nodes on separate machines instead"))
    else ok tt
