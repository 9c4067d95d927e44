-- ===== src/Urma/Jetty.antt =====
-- src/urma.rs: `JettyOpts`, `Jetty`, its creation, export and drop.
use urma_rs.Base.{ℕ, ◌==◌, ltb, Bool, false, List, if◌then◌else◌}
use urma_rs.Error.{ok, invalid, priority_out_of_range, blob_too_short, check_status}
use urma_rs.Ffi.Consts.{
  urma_max_priority, urma_typical_min_rnr_timer, urma_typical_rnr_retry, urma_typical_err_timeout,
  urma_jetty_flag_share_jfr,
}
use urma_rs.Ffi.Flags.JfsFlag.{with_order_type, with_multi_path}
use urma_rs.Ffi.Structs.{UrmaJfsCfg, UrmaJfrCfg, size_of_rjetty}
use urma_rs.Ffi.Liburma.{Liburma, Event}
use urma_rs.Ffi.World.{World, Context, log}
use urma_rs.Ffi.Io.{
  Io, ◌>>=◌, ◌>>◌, pure, fail, emit, modify, lift, non_null, null_err, urma_create_jfr,
  urma_create_jetty, urma_get_rjetty,
}
use urma_rs.Urma.Values.{JettyId, jetty_id_from_raw}
use urma_rs.Urma.Modes.{TransMode, rm, bit}
use urma_rs.Urma.Context.{raw_of}
use urma_rs.Urma.Cq.{jfc_of, clone_cq, drop_cq}
use urma_rs.Urma.Seg.{bytes_from}

abbrev pub token_value : ℕ
token_value = 0xacfe

abbrev pub default_depth : ℕ
default_depth = 64

pub record JettyOpts : Type 0 where
  pub depth : ℕ
  pub trans_mode : TransMode
  pub multi_path : Bool
  pub token_value : ℕ
  pub max_sge : ℕ
  pub priority : ℕ

-- `JettyOpts::default()`.
abbrev pub default_opts : JettyOpts
default_opts = record {
  depth = default_depth;
  trans_mode = rm;
  multi_path = false;
  token_value = 0xacfe;
  max_sge = 1;
  priority = urma_max_priority;
}

pub record Jetty : Type 0 where
  pub jfr : ℕ
  pub raw : ℕ
  pub id : JettyId
  pub max_sge : ℕ
  pub cq : ℕ

-- `Drop for Jetty`, and then its handle on the queue.
unfoldable pub drop_jetty : Jetty → World → World
drop_jetty j w =
    drop_cq j.cq (log (log w (Event.urma_delete_jetty j.raw)) (Event.urma_delete_jfr j.jfr))

-- The jfs part of the configuration.
abbrev jfs_cfg : JettyOpts → ℕ → UrmaJfsCfg
jfs_cfg opts jfc = record {
  depth = opts.depth;
  flag = with_multi_path (with_order_type (record { value = 0 }) 0) opts.multi_path;
  trans_mode = bit opts.trans_mode;
  priority = opts.priority;
  max_sge = opts.max_sge;
  max_rsge = 0;
  max_inline_data = 0;
  rnr_retry = urma_typical_rnr_retry;
  err_timeout = urma_typical_err_timeout;
  jfc = jfc;
  user_ctx = 0;
}

-- The configuration of the shared jfr.
abbrev pub jfr_cfg : JettyOpts → ℕ → UrmaJfrCfg
jfr_cfg opts jfc = record {
  id = 0;
  depth = opts.depth;
  flag = record { value = 0 };
  trans_mode = bit opts.trans_mode;
  max_sge = opts.max_sge;
  min_rnr_timer = urma_typical_min_rnr_timer;
  jfc = jfc;
  token_value = record { token = opts.token_value };
  user_ctx = 0;
}

module _ (p : Liburma) where
  -- Reads `raw.jetty_id`.
  unfoldable pub id_of : ℕ → Io JettyId
  unfolding jetty_id_from_raw
  id_of raw w = (ok (jetty_id_from_raw (p.jetty_id_of w.trace raw)), w)

  -- `urma_create_jetty` on the shared jfr, which is deleted when that fails.
  unfoldable pub new_on_jfr : Context → ℕ → JettyOpts → ℕ → Io Jetty
  unfolding raw_of jfc_of null_err id_of clone_cq
  new_on_jfr ctx cq opts jfr = do
    ctx_raw ← raw_of ctx
    jfc ← jfc_of cq
    raw ← urma_create_jetty p ctx_raw (record {
      id = 0;
      flag = record { value = urma_jetty_flag_share_jfr };
      jfs_cfg = jfs_cfg opts jfc;
      recv = record { jfr = jfr; jfc = 0 };
      jetty_grp = 0;
      user_ctx = 0;
    })
    if raw == 0
        then (λ w.
            let (e, w') = null_err p "urma_create_jetty" w in
            (e, log w' (Event.urma_delete_jfr jfr)))
        else (do
          id ← id_of raw
          modify (clone_cq cq)
          pure (record { jfr = jfr; raw = raw; id = id; max_sge = opts.max_sge; cq = cq }))

  -- `Jetty::new`. The range of the priority is tested when the jfr is already there.
  unfoldable pub new : Context → ℕ → JettyOpts → Io Jetty
  unfolding raw_of jfc_of non_null null_err new_on_jfr
  new ctx cq opts = do
    ctx_raw ← raw_of ctx
    jfc ← jfc_of cq
    jfr ← urma_create_jfr p ctx_raw (jfr_cfg opts jfc)
    jfr' ← non_null p jfr "urma_create_jfr"
    if ltb urma_max_priority opts.priority
        then fail (invalid (priority_out_of_range opts.priority urma_max_priority))
        else new_on_jfr ctx cq opts jfr'

  unfoldable pub export_rjetty : Jetty → Io (List ℕ)
  unfolding check_status non_null null_err bytes_from
  export_rjetty j = do
    blob ← urma_get_rjetty p j.raw
    lift (check_status blob.status "urma_get_rjetty")
    raw ← non_null p blob.raw "urma_get_rjetty"
    if ltb blob.size size_of_rjetty
        then (do
          emit (Event.urma_put_rjetty raw)
          fail (invalid (blob_too_short "rjetty" blob.size size_of_rjetty)))
        else (do
          let copy = bytes_from 0 blob.size blob.byte
          emit (Event.urma_put_rjetty raw)
          pure copy)
