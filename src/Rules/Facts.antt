-- ===== src/Rules/Facts.antt =====
-- `build_context` of backend/app/rules_engine.py: the facts that the conditions of rules read.
use parking_system.Common.{
  ℕ, ◌%◌, Bool, true, false, not, ◌&&◌, Option, none, some, List, ltb, ◌==◌, count, total, first,
  any, select, text_eq, is_some, is_id,
}
use parking_system.Python.{Text}
use parking_system.Model.{
  Vehicle, Gate, ParkingSession, SessionStatus, Charge, ChargeStatus, ParkingSpace, SpaceStatus,
}
use parking_system.Store.{Db, Violation, ViolationStatus}
use parking_system.Settings.{Environment}
use parking_system.Capacity.{count_confirmed_occupancy, yard_capacity_decision}
use parking_system.Finance.Charges.{charge_outstanding}
use parking_system.Finance.Night.{day}
use parking_system.Rules.{Context}

abbrev pub is_open : SessionStatus → Bool
is_open SessionStatus.opened = true
is_open _ = false

abbrev pub is_unpaid : ChargeStatus → Bool
is_unpaid ChargeStatus.unpaid = true
is_unpaid _ = false

-- The row of an open session of the plate.
abbrev pub open_for : Text → ParkingSession → Bool
open_for plate s = text_eq s.plate_normalized plate && is_open s.status

abbrev pub is_free : ParkingSpace → Bool
is_free s = elim s.status [ SpaceStatus.free ↦ s.is_active | _ ↦ false ]

abbrev pub confirmed_for : Text → Violation → Bool
confirmed_for plate v = elim v.status [
  | ViolationStatus.confirmed ↦ elim v.plate_normalized [ none ↦ false | some p ↦ text_eq p plate ]
  | _ ↦ false
]

-- The charge belongs to one of the sessions.
abbrev pub charged_to : List ParkingSession → Charge → Bool
charged_to sessions c = any (λ s. is_id c.parking_session_id s.id) sessions

unfoldable pub plate_debt : Db → Text → ℕ
plate_debt db plate = total charge_outstanding (
    select
      (λ c.
        charged_to (select (λ s. text_eq s.plate_normalized plate) db.sessions) c
        && is_unpaid c.status)
      db.charges)

unfoldable pub membership : Db → Option Vehicle → Option Text
membership db none = none
membership db (some v) = elim v.vehicle_group_id [
  | none ↦ none
  | some g ↦ elim (first (λ x. x.id == g) db.groups) [
    | none ↦ none
    | some x ↦ some x.membership_kind
  ]
]

abbrev pub is_resident : Option Vehicle → Bool
is_resident none = false
is_resident (some v) = is_some v.unit_id

-- The rule engine reads the capacity of the environment only, not the one that is set in the
-- database.
unfoldable pub yard_is_full : Environment → Db → Bool
yard_is_full env db =
    not
      (yard_capacity_decision env.yard_capacity_total (count_confirmed_occupancy db.occupancies)).0

abbrev pub of_plate {ℓ} : {A : Type ℓ} → Option Text → A → (Text → A) → A
of_plate none d f = d
of_plate (some plate) d f = f plate

unfoldable pub build_context :
    Environment → Db → Gate → Option Text → Option Vehicle → Bool → Option Text → ℕ → Context
unfolding plate_debt membership yard_is_full
build_context env db gate normalized vehicle has_permit driver_request now = record {
  membership_kind = membership db vehicle;
  is_resident = is_resident vehicle;
  has_valid_permit = has_permit;
  yard_full = yard_is_full env db;
  covered_free_count = count is_free db.spaces;
  has_open_session =
      of_plate normalized false (λ plate. ltb 0 (count (open_for plate) db.sessions));
  has_debt = of_plate normalized false (λ plate. ltb 0 (plate_debt db plate));
  confirmed_violations_count =
      of_plate normalized 0 (λ plate. count (confirmed_for plate) db.violations);
  driver_request = driver_request;
  gate_code = gate.code;
  plate_normalized = normalized;
  time_of_day = now % day;
}
