-- ===== src/Common/Support.antt =====
-- examples/common/mod.rs: `check_mode_support`, the preflight of the mode that all examples run.
use urma_rs.Base.{ℕ, ◌==◌, ◌&&◌, not, Bool, true, false, List, [], ◌∷◌, ◌++◌, if◌then◌else◌}
use urma_rs.Error.{Missing, transport_mode_rm, ctp_for_rm, multi_path_for_rm}
use urma_rs.Error.{ok, err, invalid, mode_not_supported}
use urma_rs.Ffi.Liburma.{Liburma}
use urma_rs.Ffi.Io.{Io, ◌>>=◌}
use urma_rs.Urma.Modes.{rm, ctp}
use urma_rs.Urma.Cap.{DeviceCap, supports_mode, supports, supports_multi_path, tp_cap}
use urma_rs.Urma.Device.{query_device}

unfoldable pub starts_with : List ℕ → List ℕ → Bool
starts_with [] s = true
starts_with (c ∷ cs) [] = false
starts_with (c ∷ cs) (d ∷ ds) = c == d && starts_with cs ds

-- The bytes of "bonding".
abbrev bonding : List ℕ
bonding = b'b' ∷ b'o' ∷ b'n' ∷ b'd' ∷ b'i' ∷ b'n' ∷ b'g' ∷ []

-- `dev.starts_with("bonding")`.
unfoldable pub is_bonding : List ℕ → Bool
unfolding starts_with
is_bonding = starts_with bonding

-- The vector `missing`.
unfoldable pub missing_of : DeviceCap → Bool → List Missing
missing_of cap multi_path =
    if not (supports_mode cap rm)
    then transport_mode_rm ∷ []
    else (if not (supports cap rm ctp)
        then ctp_for_rm ((tp_cap cap rm).has_ctp && not cap.ctp_enabled) ∷ []
        else [])
      ++ (if multi_path && not (supports_multi_path cap rm) then multi_path_for_rm ∷ [] else [])

unfoldable pub check_support_of : List ℕ → DeviceCap → Io (Unit {0})
unfolding missing_of is_bonding
check_support_of dev cap w = elim (missing_of cap (is_bonding dev)) [
  | [] ↦ (ok tt, w)
  | m ∷ ms ↦ (err (invalid (mode_not_supported dev (m ∷ ms))), w)
]

module _ (p : Liburma) where
  unfoldable pub check_mode_support : List ℕ → Io (Unit {0})
  unfolding check_support_of
  check_mode_support dev = do cap ← query_device p dev; check_support_of dev cap
