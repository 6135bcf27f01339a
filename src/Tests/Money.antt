-- ===== src/Tests/Money.antt =====
-- Witnesses on tariffs and charges.
use parking_system.Common.{
  ◌+◌, ◌*◌, ◌≤◌, ◌≡◌, refl, min, max, total, none, some, List, [], ◌∷◌, arith,
}
use parking_system.Common.Int.{pos}
use parking_system.Model.{Charge}
use parking_system.Finance.Night.{night_overlap_seconds, hour}
use parking_system.Finance.Night.Bounds.{night_overlap_seconds-le}
use parking_system.Finance.Tariff.{calculate_amounts, default_policy, total_days, hours_24}
use parking_system.Finance.Tariff.Bounds.{final-le-cap}
use parking_system.Finance.Tariff.Order.{final_mono}
use parking_system.Finance.Charges.{charge_outstanding, allocate_payment_amounts}
use parking_system.Finance.Charges.Allocation.{allocated, allocated-min}
use parking_system.Tests.Fixtures.{tariff, charge_of}

abbrev debts : List Charge
debts = charge_of 1 300 ∷ charge_of 2 500 ∷ []

-- From 21:00 on, eight hours: seven of them are in the night, 22:00 to 06:00.
night_of_eight_hours :
    night_overlap_seconds (738000 * 24 * hour + 21 * hour) (8 * 3600) 22 6 ≡ 7 * 3600
unfolding night_overlap_seconds
night_of_eight_hours = refl

night_overlap_seconds-le_example :
    night_overlap_seconds (738000 * 24 * hour + 21 * hour) (8 * 3600) 22 6 ≤ 8 * 3600
night_overlap_seconds-le_example =
    night_overlap_seconds-le (738000 * 24 * hour + 21 * hour) (8 * 3600) 22 6 (omega arith)
      (omega arith)

final-le-cap_example :
    (calculate_amounts (some tariff) (some (pos 90000)) none default_policy).final
    ≤ max (5000 * total_days hours_24 none 90000) 0
final-le-cap_example = final-le-cap tariff 90000 none default_policy refl (omega arith)

final_mono_example :
    (calculate_amounts (some tariff) (some (pos 7000)) none default_policy).final
    ≤ (calculate_amounts (some tariff) (some (pos 9000)) none default_policy).final
final_mono_example = final_mono tariff 7000 9000 none default_policy refl (omega arith)

allocated-min_example :
    allocated (allocate_payment_amounts debts 450).0 ≡ min 450 (total charge_outstanding debts)
allocated-min_example = allocated-min debts 450
