-- ===== src/Capacity.antt =====
-- backend/app/capacity.py: the guard of the yard's capacity.
use parking_system.Common.{
  ℕ, Bool, true, false, Option, none, some, List, leb, ◌==◌, if◌then◌else◌, count,
}
use parking_system.Common.Int.{ℤ, pos, negsuc}
use parking_system.Python.{codes}
use parking_system.Model.{ParkingOccupancy, OccupancyStatus, ParkingSpace, ParkingType}
use parking_system.Settings.{AppSetting, Environment, Value, num, flag, lookup_row, lookup_value}

pub data CapacityReason : Type 0 where
  ok yard_capacity_full : CapacityReason

unfoldable pub yard_capacity_decision : Option ℤ → ℕ → Bool × CapacityReason
yard_capacity_decision none confirmed = (true, ok)
yard_capacity_decision (some (negsuc n)) confirmed = (true, ok)
yard_capacity_decision (some (pos declared)) confirmed =
    if declared == 0
    then (true, ok)
    else if leb declared confirmed
    then (false, yard_capacity_full)
    else (true, ok)

-- A positive whole number; Python's `True` is an instance of int too.
abbrev pub positive : ℤ → Option ℤ
positive (pos n) = if n == 0 then none else some (pos n)
positive (negsuc n) = none

abbrev pub positive_value : Option Value → Option ℤ
positive_value none = none
positive_value (some v) = elim v [
  | num n ↦ positive n
  | flag b ↦ if b then some (pos 1) else none
  | _ ↦ none
]

-- `value["total"]` of the setting `yard_capacity`
unfoldable pub stored_capacity : List AppSetting → Option ℤ
stored_capacity rows = elim (lookup_row (codes "yard_capacity") rows) [
  | none ↦ none
  | some object ↦ positive_value (lookup_value (codes "total") object)
]

-- The setting of the database, else the environment's, else no limit.
unfoldable pub get_declared_yard_capacity : Environment → List AppSetting → Option ℤ
get_declared_yard_capacity env rows = elim (stored_capacity rows) [
  | some n ↦ some n
  | none ↦ elim env.yard_capacity_total [ none ↦ none | some n ↦ positive n ]
]

abbrev pub is_occupied : OccupancyStatus → Bool
is_occupied OccupancyStatus.occupied = true
is_occupied OccupancyStatus.vacated = false

unfoldable pub count_confirmed_occupancy : List ParkingOccupancy → ℕ
count_confirmed_occupancy occupancies = count (λ o. is_occupied o.status) occupancies

abbrev pub is_yard : ParkingSpace → Bool
is_yard s = elim s.parking_type [ ParkingType.yard ↦ s.is_active | ParkingType.other_type ↦ false ]

unfoldable pub count_yard_spaces : List ParkingSpace → ℕ
count_yard_spaces spaces = count is_yard spaces

unfoldable pub check_yard_capacity :
    Environment → List AppSetting → List ParkingOccupancy → Bool × CapacityReason
check_yard_capacity env rows occupancies =
    yard_capacity_decision (get_declared_yard_capacity env rows)
      (count_confirmed_occupancy occupancies)
