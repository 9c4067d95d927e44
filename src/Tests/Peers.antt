-- ===== src/Tests/Peers.antt =====
-- Imports of peers, and handles.
use urma_rs.Base.{ℕ, ◌≤◌, ◌+◌, List, replicate}
use urma_rs.Urma.Release.{held}
use urma_rs.Urma.Release.Create.{Gains}
use urma_rs.Urma.Release.Import.{peer_held}
use urma_rs.Common.Desc.{PeerDesc}
use urma_rs.Common.Import.{import_peer}
use urma_rs.Common.Laws.{sleeps, import_peer-Gains}
use urma_rs.Tests.Library.{working, opened, ctx, eid}

abbrev blob : List ℕ
blob = replicate 48 0

abbrev desc : PeerDesc
desc = record {
  eid = eid;
  uasid = 0;
  seg_va = 4096;
  seg_len = 4096;
  seg_flag = 0;
  seg_token_id = 1;
  jetty_eid = eid;
  jetty_uasid = 0;
  jetty_id = 5;
  seg_ctx = blob;
  rjetty = blob;
}

import_peer-Gains_example :
    let r = import_peer working ctx desc opened in
    Gains peer_held (held opened.trace) r.0 r.1 × (sleeps r.1.trace ≤ sleeps opened.trace + 30)
import_peer-Gains_example = import_peer-Gains working ctx desc opened
