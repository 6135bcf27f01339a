-- ===== src/Tests/Desk.antt =====
-- Witnesses on violations.
use parking_system.Common.{◌≡◌, refl, true, false, none, some, [], ◌∷◌, arith, count, first, update}
use parking_system.Store.{Violation, registered, confirmed, cancelled}
use parking_system.Violations.{
  Desk, done, confirm_violation, confirm_found, cancel_violation, cancel_found, cancel_rows,
  set_status, charge_penalty, void_unpaid_charge, void_found, voidable_charge_status,
  can_transition, violation_charge, reviewed, voided_row, Cancelled,
}
use parking_system.Violations.Desks.{IsSettled}
use parking_system.Violations.Requests.{here, then, confirm, cancel, Requests-IsSettled}

abbrev blocked_way : Violation
blocked_way = record {
  id = 7;
  vehicle_id = none;
  plate_normalized = none;
  penalty_amount = 900;
  status = registered;
  reviewed_by = none;
  reviewed_at = none;
  client_ref = none;
  image_file_id = none;
}

abbrev desk : Desk
desk = record {
  types = [];
  violations = blocked_way ∷ [];
  appeals = [];
  charges = [];
  vehicles = [];
}

abbrev confirmed_desk : Desk
confirmed_desk = record desk {
  violations = reviewed confirmed (some 1) 10 blocked_way ∷ [];
  charges = violation_charge 20 blocked_way 10 ∷ [];
}

abbrev cancelled_desk : Desk
cancelled_desk = record desk {
  violations = reviewed cancelled (some 1) 11 (reviewed confirmed (some 1) 10 blocked_way) ∷ [];
  charges = voided_row (violation_charge 20 blocked_way 10) ∷ [];
}

abbrev voided_answer : Cancelled
voided_answer = record { duplicate = false; charge_voided = true; paid_charge_needs_refund = false }

desk_is_confirmed : confirm_violation 7 (some 1) 10 20 desk ≡ done false confirmed_desk
unfolding confirm_violation confirm_found set_status charge_penalty first update can_transition
desk_is_confirmed = refl

desk_is_cancelled :
    cancel_violation 7 (some 1) 11 confirmed_desk ≡ done voided_answer cancelled_desk
unfolding cancel_violation cancel_found cancel_rows set_status void_unpaid_charge void_found first
    update can_transition voidable_charge_status
desk_is_cancelled = refl

desk-IsSettled : IsSettled desk
unfolding count first
desk-IsSettled = record { one_charge = λ id. omega arith; cleared = λ id h. refl }

Requests-IsSettled_example : IsSettled cancelled_desk
Requests-IsSettled_example = Requests-IsSettled desk desk-IsSettled (
    then (then here (confirm 7 (some 1) 10 20 false desk_is_confirmed))
      (cancel 7 (some 1) 11 voided_answer desk_is_cancelled))
