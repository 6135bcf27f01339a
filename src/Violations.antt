-- ===== src/Violations.antt =====
-- backend/app/modules/violations: the state machine of violations (service.py) and the endpoints
-- that create, confirm and cancel them and review appeals (router.py). The audit log is left out.
mod Rows
unfoldable pub use Rows.{
  can_transition, voidable_charge_status, appeal_result, void_found, void_unpaid_charge, set_status,
  charge_penalty,
}
pub use Rows.*
pub mod Create
pub mod Voiding
pub mod Desks
pub mod Requests
pub mod Repeat
use parking_system.Common.{
  any, ℕ, Bool, true, false, ◌&&◌, ◌||◌, not, Option, none, some, List, [], ◌∷◌, ◌++◌, ltb, ◌==◌,
  if◌then◌else◌, first, update, text_eq, is_some, is_id,
}
use parking_system.Common.Int.{pos}
use parking_system.Python.{Python, Text, codes, upper_all}
use parking_system.Model.{Vehicle, Charge, ChargeStatus, ChargeType}
use parking_system.Store.{Violation, ViolationStatus, registered, confirmed, cancelled}
use parking_system.Plate.{normalize_plate}

-- `create_type`: the code of a type is unique.
unfoldable pub create_type : ViolationType → Desk → Reply ℕ
create_type t d =
    if any (λ u. text_eq u.code t.code) d.types
    then conflict
    else done t.id (record d { types = d.types ++ t ∷ [] })

-- `confirm_violation` on the row that is found; the answer is its field `duplicate`.
unfoldable pub confirm_found : Option Violation → ℕ → Option ℕ → ℕ → ℕ → Desk → Reply Bool
unfolding set_status charge_penalty
confirm_found none violation_id user now charge_id d = not_found
confirm_found (some v) violation_id user now charge_id d =
    if is_status v.status confirmed
    then done true d
    else if not (can_transition v.status confirmed)
    then conflict
    else done false (record d {
      violations = set_status violation_id confirmed user now d.violations;
      charges = charge_penalty charge_id v now d.charges;
    })

unfoldable pub confirm_violation : ℕ → Option ℕ → ℕ → ℕ → Desk → Reply Bool
unfolding confirm_found
confirm_violation violation_id user now charge_id d =
    confirm_found (first (has_id violation_id) d.violations) violation_id user now charge_id d

pub record Cancelled : Type 0 where
  pub duplicate : Bool
  pub charge_voided : Bool
  pub paid_charge_needs_refund : Bool

abbrev pub is_paid_charge : Option Charge → Bool
is_paid_charge none = false
is_paid_charge (some c) = elim c.status [ ChargeStatus.paid ↦ true | _ ↦ false ]

-- The rows after a cancellation.
unfoldable pub cancel_rows : ℕ → Option ℕ → ℕ → Desk → Desk
unfolding set_status void_unpaid_charge
cancel_rows violation_id user now d = record d {
  violations = set_status violation_id cancelled user now d.violations;
  charges = (void_unpaid_charge violation_id d.charges).0;
}

-- `cancel_violation` on the row that is found.
unfoldable pub cancel_found : Option Violation → ℕ → Option ℕ → ℕ → Desk → Reply Cancelled
unfolding cancel_rows
cancel_found none violation_id user now d = not_found
cancel_found (some v) violation_id user now d =
    let voided = (void_unpaid_charge violation_id d.charges).1 in
    if is_status v.status cancelled
    then done (record { duplicate = true; charge_voided = false; paid_charge_needs_refund = false })
        d
    else if not (can_transition v.status cancelled)
    then conflict
    else done
        (record {
          duplicate = false;
          charge_voided = voided;
          paid_charge_needs_refund =
              not voided && is_paid_charge (first (charges_for violation_id) d.charges);
        })
        (cancel_rows violation_id user now d)

unfoldable pub cancel_violation : ℕ → Option ℕ → ℕ → Desk → Reply Cancelled
unfolding cancel_found
cancel_violation violation_id user now d =
    cancel_found (first (has_id violation_id) d.violations) violation_id user now d

abbrev pub is_live : ViolationStatus → Bool
is_live registered = true
is_live confirmed = true
is_live cancelled = false

abbrev pub new_appeal : ℕ → ℕ → Option ℕ → ViolationAppeal
new_appeal id violation_id user = record {
  id = id;
  violation_id = violation_id;
  submitted_by = user;
  status = submitted;
  reviewed_by = none;
  reviewed_at = none;
}

-- `create_appeal` on the violation that is found; the answer is the appeal's identifier.
unfoldable pub appeal_found : Option Violation → ℕ → Option ℕ → ℕ → Desk → Reply ℕ
appeal_found none violation_id user id d = not_found
appeal_found (some v) violation_id user id d =
    if not (is_live v.status)
    then conflict
    else done id (record d { appeals = d.appeals ++ new_appeal id violation_id user ∷ [] })

unfoldable pub create_appeal : ℕ → Option ℕ → ℕ → Desk → Reply ℕ
unfolding appeal_found
create_appeal violation_id user id d =
    appeal_found (first (has_id violation_id) d.violations) violation_id user id d

abbrev pub is_submitted : AppealStatus → Bool
is_submitted submitted = true
is_submitted _ = false

abbrev pub is_accepted : AppealStatus → Bool
is_accepted accepted = true
is_accepted _ = false

-- An accepted appeal cancels a violation that is not cancelled yet.
unfoldable pub accept_found : Option Violation → ℕ → Option ℕ → ℕ → Desk → Desk × Bool
accept_found none violation_id user now d = (d, false)
accept_found (some v) violation_id user now d =
    if is_live v.status
    then (cancel_rows violation_id user now d, (void_unpaid_charge violation_id d.charges).1)
    else (d, false)

unfoldable pub accept_appeal : ℕ → Option ℕ → ℕ → Desk → Desk × Bool
unfolding accept_found
accept_appeal violation_id user now d =
    accept_found (first (has_id violation_id) d.violations) violation_id user now d

abbrev pub reviewed_appeal : AppealStatus → Option ℕ → ℕ → ViolationAppeal → ViolationAppeal
reviewed_appeal status user now a = record a {
  status = status;
  reviewed_by = user;
  reviewed_at = some now;
}

-- The appeal is reviewed with a valid result.
unfoldable pub settle_appeal :
    AppealStatus → ViolationAppeal → Option ℕ → ℕ → Desk → Reply (AppealStatus × Bool)
unfolding accept_appeal
settle_appeal r a user now d =
    let d' = record d {
      appeals = update (λ b. b.id == a.id) (reviewed_appeal r user now) d.appeals;
    } in
    if is_accepted r
    then done (r, (accept_appeal a.violation_id user now d').1)
        (accept_appeal a.violation_id user now d').0
    else done (r, false) d'

unfoldable pub review_found :
    Option ViolationAppeal → Option AppealStatus → Option ℕ → ℕ → Desk → Reply (AppealStatus × Bool)
unfolding settle_appeal
review_found none result user now d = not_found
review_found (some a) none user now d =
    if not (is_submitted a.status) then conflict else unprocessable
review_found (some a) (some r) user now d =
    if not (is_submitted a.status) then conflict else settle_appeal r a user now d

-- `review_appeal`; the answer is the status and the field `charge_voided`.
unfoldable pub review_appeal : Python → ℕ → Text → Option ℕ → ℕ → Desk → Reply (AppealStatus × Bool)
unfolding review_found appeal_result
review_appeal py appeal_id result user now d =
    review_found (first (λ a. a.id == appeal_id) d.appeals) (appeal_result py result) user now d
