-- ===== src/Cli/Preflight.antt =====
-- examples/urma_cli.rs: the mode arguments and their check against the device.
-- examples/urma_bench.rs has the same of its own.
pub mod Laws
use urma_rs.Base.{ℕ, ◌&&◌, ◌||◌, not, Bool, true, false, List, [], ◌∷◌, ◌++◌, if◌then◌else◌}
use urma_rs.Error.{
  Result, ok, err, invalid, not_supported, Missing, transport_mode, multi_path_for, tp_type_for,
}
use urma_rs.Ffi.Liburma.{Liburma}
use urma_rs.Ffi.Io.{Io, ◌>>=◌, lift}
use urma_rs.Urma.Modes.{TransMode, TpType}
use urma_rs.Urma.Cap.{DeviceCap, supports_mode, supports, supports_multi_path, tp_cap}
use urma_rs.Urma.Device.{query_device}
use urma_rs.Common.Support.{is_bonding}

pub data ModeArg : Type 0 where
  rm rc um : ModeArg

pub data TpArg : Type 0 where
  rtp ctp utp : TpArg

-- `ModeArg::get` and `TpArg::get`.
unfoldable pub mode_get : ModeArg → TransMode
mode_get ModeArg.rm = TransMode.rm
mode_get ModeArg.rc = TransMode.rc
mode_get ModeArg.um = TransMode.um

unfoldable pub tp_get : TpArg → TpType
tp_get TpArg.rtp = TpType.rtp
tp_get TpArg.ctp = TpType.ctp
tp_get TpArg.utp = TpType.utp

pub record ModeArgs : Type 0 where
  pub dev : List ℕ
  pub mode : ModeArg
  pub tp : TpArg
  pub multi_path : Bool

abbrev is_ctp : TpType → Bool
is_ctp TpType.ctp = true
is_ctp TpType.rtp = false
is_ctp TpType.utp = false

-- The line on the mode or the tp type.
unfoldable pub missing_mode : DeviceCap → TransMode → TpType → List Missing
missing_mode cap mode tp =
    if not (supports_mode cap mode)
    then transport_mode mode ∷ []
    else if not (supports cap mode tp)
    then tp_type_for tp mode (is_ctp tp && (tp_cap cap mode).has_ctp && not cap.ctp_enabled) ∷ []
    else []

-- The line on multi-path, and the multi-path that is used: a bonding device that does not report it
-- falls back to a single path, unless it was asked for.
unfoldable pub resolve_path : DeviceCap → TransMode → Bool → Bool → List Missing × Bool
resolve_path cap mode asked bonding =
    if (asked || bonding) && not (supports_multi_path cap mode)
    then (if asked then (multi_path_for mode ∷ [], true) else ([], false))
    else ([], asked || bonding)

-- What follows the query of the device.
unfoldable pub preflight_of : ModeArgs → DeviceCap → Result (TransMode × TpType × Bool)
preflight_of m cap =
    let mode = mode_get m.mode in
    let tp = tp_get m.tp in
    let (missing_path, multi_path) = resolve_path cap mode m.multi_path (is_bonding m.dev) in
    elim (missing_mode cap mode tp ++ missing_path) [
      | [] ↦ ok (mode, tp, multi_path)
      | line ∷ missing ↦ err (invalid (not_supported m.dev (line ∷ missing)))
    ]

module _ (p : Liburma) where
  unfoldable pub preflight : ModeArgs → Io (TransMode × TpType × Bool)
  preflight m = do cap ← query_device p m.dev; lift (preflight_of m cap)
