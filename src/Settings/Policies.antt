-- ===== src/Settings/Policies.antt =====
-- The policies are always in range, whatever is stored.
use parking_system.Common.{ℕ, ◌≤◌, ◌<◌, List, arith}
use parking_system.Common.Int.{ℤ}
use parking_system.Python.{Python}
use parking_system.Finance.Night.{night_overlap_seconds}
use parking_system.Finance.Night.Bounds.{night_overlap_seconds-le}
use parking_system.Settings.{Environment, AppSetting, clamp_hour, resolve_tariff_policy}

clamp-lt : (n : ℤ) → clamp_hour n < 24
unfolding clamp_hour
clamp-lt n = ground arith

-- Whatever numbers are stored for the night's hours, the night tariff that they lead to never bills
-- more night seconds than the stay has.
pub stored_night-le :
    (py : Python) (env : Environment) (rows : List AppSetting) (start duration : ℕ)
    → let p = resolve_tariff_policy py env rows in
      night_overlap_seconds start duration p.night_start_hour p.night_end_hour ≤ duration
unfolding resolve_tariff_policy
stored_night-le py env rows start duration =
    night_overlap_seconds-le start duration _ _ (clamp-lt _) (clamp-lt _)
