-- ===== src/Cli/Preflight/Laws.antt =====
-- What the preflight lets through.
use urma_rs.Base.{◌&&◌, ◌||◌, not, ◌≡◌, ◌++◌, if◌then◌else◌, arith}
use urma_rs.Error.{ok, err, invalid, not_supported}
use urma_rs.Urma.Cap.{DeviceCap, supports, supports_multi_path}
use urma_rs.Common.Support.{is_bonding}
use urma_rs.Cli.Preflight.{ModeArgs, mode_get, tp_get, missing_mode, resolve_path, preflight_of}

-- The preflight passes exactly where the device supports the tp type in the mode and, if it was
-- asked for, multi-path; multi-path is then used where the device supports it and it was asked for
-- or the name begins with the word bonding. Otherwise the error names what is missing.
pub preflight_of_lem :
    (m : ModeArgs) (cap : DeviceCap)
    → preflight_of m cap ≡ (
        if supports cap (mode_get m.mode) (tp_get m.tp)
          && (not m.multi_path || supports_multi_path cap (mode_get m.mode))
        then ok (
          mode_get m.mode,
          tp_get m.tp,
          (m.multi_path || is_bonding m.dev) && supports_multi_path cap (mode_get m.mode),
        )
        else err (
            invalid (
              not_supported m.dev (
                missing_mode cap (mode_get m.mode) (tp_get m.tp)
                ++ (resolve_path cap (mode_get m.mode) m.multi_path (is_bonding m.dev)).0))))
unfolding preflight_of missing_mode resolve_path supports
preflight_of_lem m cap = ground arith
