-- ===== src/Urma/Peer.antt =====
-- src/urma.rs: `Peer`, the imported segment and jetty of the other node.
pub mod Layout
use urma_rs.Base.{
  ℕ, ◌+◌, ◌-◌, ◌*◌, ◌/◌, ◌%◌, ◌^◌, ◌==◌, ltb, bit_or, String, List, [], ◌∷◌, ◌++◌, length, take,
  drop, replicate, if◌then◌else◌,
}
use urma_rs.Error.{Result, ok, err, invalid, blob_too_short}
use urma_rs.Ffi.Consts.{
  urma_access_read, urma_access_write, urma_jetty_grp_policy_rr, urma_target_jetty,
}
use urma_rs.Ffi.Flags.ImportSegFlag.{UrmaImportSegFlag, with_access}
use urma_rs.Ffi.Structs.{UrmaToken, size_of_seg, size_of_rjetty, offset_of_tp_type}
use urma_rs.Ffi.Liburma.{Liburma, Event, SegArg, RjettyArg}
use urma_rs.Ffi.World.{World, Context, log}
use urma_rs.Ffi.Io.{
  Io, ◌>>=◌, ◌>>◌, pure, modify, lift, non_null, null_err, urma_import_seg, urma_import_jetty,
}
use urma_rs.Urma.Values.{SegDesc, JettyId, jetty_id_to_raw}
use urma_rs.Urma.Modes.{TransMode, TpType, bit, raw}
use urma_rs.Urma.Context.{drop_context, clone_context, raw_of}

pub record Peer : Type 0 where
  pub tseg : ℕ
  pub tjetty : ℕ
  pub ctx : Context

unfoldable pub drop_peer : Peer → World → World
drop_peer q w =
    drop_context q.ctx
      (log (log w (Event.urma_unimport_jetty q.tjetty)) (Event.urma_unimport_seg q.tseg))

-- A copy in whole u64 words, the last one filled up with zeros.
unfoldable pub aligned_blob : List ℕ → ℕ → String → Result (List ℕ)
aligned_blob bytes min what =
    if ltb (length bytes) min
    then err (invalid (blob_too_short what (length bytes) min))
    else ok (bytes ++ replicate ((length bytes + 7) / 8 * 8 - length bytes) 0)

-- A u32 in memory, least significant byte first.
abbrev pub le32 : ℕ → List ℕ
le32 v = v % 256 ∷ v / 256 % 256 ∷ v / 2 ^ 16 % 256 ∷ v / 2 ^ 24 % 256 ∷ []

-- `(*rj_ptr).tp_type = tp`.
unfoldable pub set_tp_type : List ℕ → ℕ → List ℕ
set_tp_type rj tp = take offset_of_tp_type rj ++ (le32 tp ++ drop (offset_of_tp_type + 4) rj)

abbrev imp_flag : UrmaImportSegFlag
imp_flag = with_access (record { value = 0 }) (bit_or urma_access_read urma_access_write)

module _ (p : Liburma) where
  -- The two imports that both forms end in; the segment is unimported when the jetty fails.
  unfoldable pub import_pair : Context → SegArg → RjettyArg → UrmaToken → Io Peer
  unfolding raw_of non_null null_err clone_context
  import_pair ctx seg rjetty token = do
    ctx_raw ← raw_of ctx
    tseg ← urma_import_seg p ctx_raw seg token imp_flag
    tseg' ← non_null p tseg "urma_import_seg"
    tjetty ← urma_import_jetty p ctx_raw rjetty token
    if tjetty == 0
        then (λ w.
            let (e, w') = null_err p "urma_import_jetty" w in
            (e, log w' (Event.urma_unimport_seg tseg')))
        else (do
          modify (clone_context ctx)
          pure (record { tseg = tseg'; tjetty = tjetty; ctx = ctx }))

  unfoldable pub import_ctx : Context → List ℕ → List ℕ → TpType → ℕ → Io Peer
  unfolding aligned_blob set_tp_type import_pair
  import_ctx ctx seg_ctx rjetty tp token_value = do
    seg ← lift (aligned_blob seg_ctx size_of_seg "seg ctx")
    rj ← lift (aligned_blob rjetty size_of_rjetty "rjetty")
    import_pair ctx (SegArg.blob seg) (RjettyArg.blob (set_tp_type rj (raw tp)))
        (record { token = token_value })

  -- `Peer::import`, from the plain descriptor.
  unfoldable pub import : Context → SegDesc → JettyId → TransMode → TpType → ℕ → Io Peer
  unfolding import_pair jetty_id_to_raw
  import ctx seg jetty mode tp token_value =
      import_pair ctx
        (SegArg.plain (record {
          ubva = record { eid = seg.eid.bytes; uasid = seg.uasid; va = seg.va };
          len = seg.len;
          attr = record { value = seg.attr };
          token_id = seg.token_id;
        }))
        (RjettyArg.plain (record {
          jetty_id = jetty_id_to_raw jetty;
          trans_mode = bit mode;
          policy = urma_jetty_grp_policy_rr;
          target_type = urma_target_jetty;
          flag = record { value = 0 };
          tp_type = raw tp;
        }))
        (record { token = token_value })
