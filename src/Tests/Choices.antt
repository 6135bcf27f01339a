-- ===== src/Tests/Choices.antt =====
-- Witnesses on tariffs, permits, settings, admissions and settlements.
use parking_system.Common.{
  ◌≡◌, ◌≤◌, refl, true, false, ◌&&◌, none, some, List, [], ◌∷◌, arith, count, ltb, ◌==◌, latest,
  select, first, sort_desc, text_eq, total,
}
use parking_system.Common.Int.{pos}
use parking_system.Python.{Text, codes}
use parking_system.Model.{
  Decision, Tariff, TariffStatus, Vehicle, Charge, Payment, ParkingSession, SessionStatus,
  PaymentStatus, ChargeStatus,
}
use parking_system.Store.{Db}
use parking_system.Finance.Night.{night_overlap_seconds}
use parking_system.Finance.Tariff.{get_active_tariff, activate_tariff, activate_row, in_force}
use parking_system.Finance.Tariff.Activation.{
  is_in_force, activation_is_exclusive, tariff_is_highest,
}
use parking_system.Settings.{AppSetting, num, resolve_tariff_policy, lookup_row}
use parking_system.Settings.Policies.{stored_night-le}
use parking_system.Envelope.{auto_ok}
use parking_system.Vehicles.{
  has_active_restriction, find_active_permit, permit_time_valid, permit_gate_allowed,
  permit_entries_available, is_usable, active_permits, day_allowed, parse_hhmm, time_allowed,
}
use parking_system.Vehicles.Permits.{permit_is_newest, is_for, made_later}
use parking_system.Gate.Decide.{
  Reading, decide, needs_human, decide_ruled, with_review, with_overrides, decide_base,
  decide_vehicle, decide_direction, decide_entry, decide_found, decide_permitted,
}
use parking_system.Rules.{apply_rules_for_event, rules_for, first_match}
use parking_system.Gate.Decide.Admission.{allow-IsAdmitted, IsAdmitted}
use parking_system.Gate.Exit.{
  Settlement, settle_exit_with_prepaid_credit, allocated_sum, recent_payments, settle_payments,
  settle_with,
}
use parking_system.Gate.Exit.Credit.{settlement-IsExact, owed_by, IsExact}
use parking_system.Finance.Charges.{
  charge_outstanding, pay_charge, payment_unallocated_credit, settle_charge,
}
use parking_system.Capacity.{
  check_yard_capacity, yard_capacity_decision, get_declared_yard_capacity, stored_capacity,
  count_confirmed_occupancy,
}
use parking_system.Tests.Fixtures.{
  ascii, environment, config, lot, gate, request, plate, vehicle, permit, tariff, noon, charge_of,
}

abbrev draft : Tariff
draft = record tariff { id = 6; status = TariffStatus.draft }

abbrev activated : List Tariff
activated = activate_row noon (some 1) 6 tariff ∷ activate_row noon (some 1) 6 draft ∷ []

draft_is_activated : activate_tariff noon (some 1) 6 (tariff ∷ draft ∷ []) ≡ some activated
unfolding activate_tariff first
draft_is_activated = refl

ids_are_unique : count (λ t. Tariff.id t == 6) (tariff ∷ draft ∷ []) ≤ 1
unfolding count
ids_are_unique = omega arith

activation_is_exclusive_example : count is_in_force activated ≡ 1
activation_is_exclusive_example =
    activation_is_exclusive noon (some 1) 6 (tariff ∷ draft ∷ []) activated ids_are_unique
      draft_is_activated

tariff_is_chosen : get_active_tariff noon (draft ∷ tariff ∷ []) ≡ some tariff
unfolding get_active_tariff first sort_desc select
tariff_is_chosen = refl

tariff_is_highest_example :
    (is_in_force tariff ≡ true)
    × (in_force noon tariff ≡ true)
    × (count
          (λ u. is_in_force u && (in_force noon u && ltb tariff.priority u.priority))
          (draft ∷ tariff ∷ [])
        ≡ 0)
tariff_is_highest_example = tariff_is_highest noon (draft ∷ tariff ∷ []) tariff_is_chosen

-- A night that is stored to end at midnight.
abbrev stored : List AppSetting
stored =
    record {
      key = codes "tariff_policy";
      value = some ((codes "night_end_hour", num (pos 0)) ∷ []);
    }
    ∷ []

stored_night-le_example :
    let p = resolve_tariff_policy ascii environment stored in
    night_overlap_seconds noon 5000 p.night_start_hour p.night_end_hour ≤ 5000
stored_night-le_example = stored_night-le ascii environment stored noon 5000

permit_is_found : (find_active_permit ascii (permit ∷ []) plate (some 1) noon).0 ≡ some permit
unfolding find_active_permit first active_permits sort_desc select text_eq is_usable
    permit_time_valid day_allowed time_allowed parse_hhmm permit_gate_allowed
    permit_entries_available
permit_is_found = refl

permit_is_newest_example :
    (is_for plate permit ≡ true)
    × ((permit_time_valid ascii permit noon).0 ≡ true)
    × (permit_gate_allowed permit (some 1) ≡ true)
    × ((permit_entries_available permit).0 ≡ true)
    × (count
          (λ q. is_for plate q && (is_usable ascii (some 1) noon q && made_later permit q))
          (permit ∷ [])
        ≡ 0)
permit_is_newest_example = permit_is_newest ascii (permit ∷ []) plate (some 1) noon permit_is_found

abbrev clear_reading : Reading
clear_reading = record {
  normalized = some plate;
  vehicle = some vehicle;
  capture = record { ok = true; review_required = false; violations = [] };
  review_status = auto_ok;
}

member_is_allowed : (decide config lot gate request clear_reading).decision ≡ Decision.allow
unfolding decide decide_ruled with_review with_overrides decide_base decide_vehicle decide_direction
    decide_entry decide_found decide_permitted apply_rules_for_event rules_for first_match
    find_active_permit first active_permits sort_desc select text_eq is_usable permit_time_valid
    day_allowed time_allowed parse_hhmm permit_gate_allowed permit_entries_available
    has_active_restriction check_yard_capacity yard_capacity_decision get_declared_yard_capacity
    stored_capacity count_confirmed_occupancy lookup_row
member_is_allowed = refl

allow-IsAdmitted_example :
    (needs_human auto_ok ≡ false)
    × ((p : Text) × (w : Vehicle) × (some plate ≡ some p)
        × (some vehicle ≡ some w)
        × (w.is_active ≡ true)
        × IsAdmitted config lot gate request p)
allow-IsAdmitted_example =
    allow-IsAdmitted config lot gate request clear_reading refl member_is_allowed

abbrev visit : ParkingSession
visit = record {
  id = 60;
  vehicle_id = some 2;
  plate_normalized = plate;
  entry_event_id = none;
  entry_at = 0;
  exit_at = none;
  duration_seconds = none;
  status = SessionStatus.opened;
  tariff_id = none;
  base_amount = 700;
  penalty_amount = 0;
  discount_amount = 0;
  final_amount = 700;
  payment_status = PaymentStatus.unpaid;
}

abbrev visit_charge : Charge
visit_charge = record (charge_of 61 700) { parking_session_id = some 60 }

abbrev prepaid : Payment
prepaid = record {
  id = 62;
  reference_number = codes "P";
  vehicle_id = none;
  plate_normalized = some plate;
  amount = 1000;
  is_completed = true;
  paid_at = noon;
}

abbrev paid_lot : Db
paid_lot = record lot { payments = prepaid ∷ [] }

abbrev settlement : Settlement
settlement = record {
  credit_used = 700;
  charge = record visit_charge { paid_amount = pos 700; status = ChargeStatus.paid };
  allocations = record { payment_id = 62; charge_id = 61; amount = 700 } ∷ [];
  settled = true;
}

visit_is_settled :
    settle_exit_with_prepaid_credit paid_lot (visit_charge ∷ []) visit noon 20 ≡ some settlement
unfolding settle_exit_with_prepaid_credit latest select charge_outstanding settle_with total
    settle_payments recent_payments sort_desc text_eq payment_unallocated_credit allocated_sum
    settle_charge pay_charge
visit_is_settled = refl

settlement-IsExact_example :
    (c : Charge) × (latest (λ c. c.created_at) (select (owed_by visit) (visit_charge ∷ []))
      ≡ some c)
    × IsExact c settlement
settlement-IsExact_example =
    settlement-IsExact paid_lot (visit_charge ∷ []) visit noon 20 settlement visit_is_settled
