-- ===== src/Urma/Seg.antt =====
-- src/urma.rs: `PageBuf`, `RegisteredSeg` and `LocalSge`.
pub mod Bounds
use urma_rs.Base.{
  ℕ, zero, suc, ◌+◌, ◌-◌, ◌^◌, ◌%◌, ◌<◌, ◌==◌, ltb, leb, ◌&&◌, bit_and, bit_or, List, [], ◌∷◌,
  Option, none, some, if◌then◌else◌,
}
use urma_rs.Error.{
  Result, ok, err, invalid, text, bad_layout, blob_too_short, local_range_exceeds_segment,
  check_status,
}
use urma_rs.Ffi.Consts.{urma_access_read, urma_access_write}
use urma_rs.Ffi.Flags.{not32}
use urma_rs.Ffi.Flags.RegSegFlag.{with_access}
use urma_rs.Ffi.Structs.{UrmaSge, UrmaSegCfg, size_of_seg}
use urma_rs.Ffi.Liburma.{Liburma, Event, Blob}
use urma_rs.Ffi.World.{World, Context, log}
use urma_rs.Ffi.Io.{
  Io, ◌>>=◌, ◌>>◌, pure, fail, emit, modify, lift, non_null, null_err, alloc_zeroed,
  urma_register_seg, urma_get_seg_ctx,
}
use urma_rs.Urma.Values.{SegDesc}
use urma_rs.Urma.Context.{drop_context, clone_context, raw_of}

abbrev pub page_size : ℕ
page_size = 4096

pub record PageBuf : Type 0 where
  pub ptr : ℕ
  pub size : ℕ

-- `buf` is `none` where the memory is owned elsewhere.
pub record RegisteredSeg : Type 0 where
  pub tseg : ℕ
  pub va : ℕ
  pub len : ℕ
  pub ctx : Context
  pub buf : Option PageBuf

pub record LocalSge : Type 0 where
  pub tseg : ℕ
  pub addr : ℕ
  pub len : ℕ

abbrev drop_page_buf : PageBuf → World → World
drop_page_buf b w = log w (Event.dealloc b.ptr b.size)

abbrev drop_owner : Option PageBuf → World → World
drop_owner none w = w
drop_owner (some b) w = drop_page_buf b w

-- `Drop for RegisteredSeg`, and then its fields in their order.
unfoldable pub drop_seg : RegisteredSeg → World → World
drop_seg s w = drop_owner s.buf (drop_context s.ctx (log w (Event.urma_unregister_seg s.tseg)))

-- The bytes behind a pointer, from index `i` on.
unfoldable pub bytes_from : ℕ → ℕ → (ℕ → ℕ) → List ℕ
bytes_from i zero byte = []
bytes_from i (suc n) byte = byte i ∷ bytes_from (suc i) n byte

module _ (p : Liburma) where
  -- `Layout::from_size_align` refuses what exceeds `isize::MAX` when rounded up to the alignment.
  unfoldable pub new_page_buf : ℕ → Io PageBuf
  new_page_buf len =
      if len == 0
      then fail (invalid (text "zero-length page buffer"))
      else if ltb (2 ^ 63 - 1 - (page_size - 1)) len
      then fail (invalid (bad_layout len page_size))
      else (do
        ptr ← alloc_zeroed p len page_size
        if ptr == 0
            then fail (invalid (text "alloc page buffer failed"))
            else pure (record { ptr = ptr; size = len }))

  unfoldable pub register_in : Context → ℕ → ℕ → ℕ → Option PageBuf → Io RegisteredSeg
  unfolding raw_of clone_context null_err
  register_in ctx ptr len token_value buf = do
    raw ← raw_of ctx
    tseg ← urma_register_seg p raw (record {
      va = ptr;
      len = len;
      token_id = 0;
      token_value = record { token = token_value };
      flag = with_access (record { value = 0 }) (bit_or urma_access_read urma_access_write);
      user_ctx = 0;
      iova = 0;
    })
    if tseg == 0
        then (λ w. let (r, w') = null_err p "urma_register_seg" w in (r, drop_owner buf w'))
        else (do
          modify (clone_context ctx)
          pure (record { tseg = tseg; va = ptr; len = len; ctx = ctx; buf = buf }))

  -- `RegisteredSeg::register`: the memory is owned elsewhere.
  unfoldable pub register : Context → ℕ → ℕ → ℕ → Io RegisteredSeg
  unfolding register_in
  register ctx ptr len token_value = register_in ctx ptr len token_value none

  -- `RegisteredBuf::new`.
  unfoldable pub new_registered_buf : Context → ℕ → ℕ → Io RegisteredSeg
  unfolding new_page_buf register_in
  new_registered_buf ctx len token_value = do
    buf ← new_page_buf len
    register_in ctx buf.ptr len token_value (some buf)

  unfoldable pub descriptor : RegisteredSeg → Io SegDesc
  descriptor s w =
      let seg = p.seg_of w.trace s.tseg in
      (
        ok (record {
          eid = record { bytes = seg.ubva.eid };
          uasid = seg.ubva.uasid;
          va = seg.ubva.va;
          len = seg.len;
          attr = bit_and seg.attr.value (not32 (2 ^ 14));
          token_id = seg.token_id;
        }),
        w,
      )

  unfoldable pub export_seg_ctx : RegisteredSeg → Io (List ℕ)
  unfolding check_status non_null null_err bytes_from
  export_seg_ctx s = do
    blob ← urma_get_seg_ctx p s.tseg
    lift (check_status blob.status "urma_get_seg_ctx")
    raw ← non_null p blob.raw "urma_get_seg_ctx"
    if ltb blob.size size_of_seg
        then (do
          emit (Event.urma_put_seg_ctx raw)
          fail (invalid (blob_too_short "seg ctx" blob.size size_of_seg)))
        else (do
          let copy = bytes_from 0 blob.size blob.byte
          emit (Event.urma_put_seg_ctx raw)
          pure copy)

-- `LocalSge::new` and `RegisteredSeg::sge`. `off` is a usize: `checked_add` fails past 2 ^ 64.
unfoldable pub sge : RegisteredSeg → ℕ → ℕ → Result LocalSge
sge seg off len =
    if ltb (off + len) (2 ^ 64) && leb (off + len) seg.len
    then ok (record { tseg = seg.tseg; addr = (seg.va + off) % 2 ^ 64; len = len })
    else err (invalid (local_range_exceeds_segment off len seg.len))

abbrev pub to_ffi : LocalSge → UrmaSge
to_ffi s = record { addr = s.addr; len = s.len; tseg = s.tseg; user_tseg = 0 }
