-- ===== src/Violations/Rows.antt =====
-- The rows of violations and what their reviews write: backend/app/modules/violations/service.py and
-- `_void_unpaid_charge` of router.py.
use parking_system.Common.{
  ℕ, Bool, true, false, ◌&&◌, not, Option, none, some, List, [], ◌∷◌, ◌++◌, ltb, ◌==◌,
  if◌then◌else◌, first, update, text_eq, is_some, is_id,
}
use parking_system.Common.Int.{pos}
use parking_system.Python.{Python, Text, codes, upper_all}
use parking_system.Model.{Vehicle, Charge, ChargeStatus, ChargeType}
use parking_system.Store.{Violation, ViolationStatus, registered, confirmed, cancelled}

pub data AppealStatus : Type 0 where
  submitted accepted rejected : AppealStatus

pub record ViolationType : Type 0 where
  pub id : ℕ
  pub code : Text
  pub default_penalty_amount : ℕ
  pub requires_image : Bool

pub record ViolationAppeal : Type 0 where
  pub id : ℕ
  pub violation_id : ℕ
  pub submitted_by : Option ℕ
  pub status : AppealStatus
  pub reviewed_by : Option ℕ
  pub reviewed_at : Option ℕ

-- The tables that the endpoints work on.
pub record Desk : Type 0 where
  pub types : List ViolationType
  pub violations : List Violation
  pub appeals : List ViolationAppeal
  pub charges : List Charge
  pub vehicles : List Vehicle

-- What an endpoint ends with: an answer and the tables, or an exception, which changes nothing.
pub data Reply (A : Type 0) : Type 0 where
  done : A → Desk → Reply A
  not_found conflict unprocessable integrity_error : Reply A

-- VIOLATION_TRANSITIONS and `can_transition`
unfoldable pub can_transition : ViolationStatus → ViolationStatus → Bool
can_transition registered confirmed = true
can_transition registered cancelled = true
can_transition confirmed cancelled = true
can_transition _ _ = false

-- `voidable_charge_status`
unfoldable pub voidable_charge_status : ChargeStatus → Bool
voidable_charge_status ChargeStatus.unpaid = true
voidable_charge_status _ = false

-- `appeal_result_valid`, with the status that the result becomes.
unfoldable pub appeal_result : Python → Text → Option AppealStatus
appeal_result py result =
    if text_eq (upper_all py result) (codes "ACCEPTED")
    then some accepted
    else if text_eq (upper_all py result) (codes "REJECTED")
    then some rejected
    else none

abbrev pub has_id : ℕ → Violation → Bool
has_id id v = v.id == id

abbrev pub charges_for : ℕ → Charge → Bool
charges_for violation_id c = is_id c.violation_id violation_id

abbrev pub voided_row : Charge → Charge
voided_row c = record c { status = ChargeStatus.voided }

-- The body of `_void_unpaid_charge`, from the charge that is found.
unfoldable pub void_found : Option Charge → List Charge → List Charge × Bool
void_found none charges = (charges, false)
void_found (some c) charges =
    if voidable_charge_status c.status
    then (update (λ d. d.id == c.id) voided_row charges, true)
    else (charges, false)

-- `_void_unpaid_charge`
unfoldable pub void_unpaid_charge : ℕ → List Charge → List Charge × Bool
void_unpaid_charge violation_id charges =
    void_found (first (charges_for violation_id) charges) charges

abbrev pub reviewed : ViolationStatus → Option ℕ → ℕ → Violation → Violation
reviewed status user now v = record v {
  status = status;
  reviewed_by = user;
  reviewed_at = some now;
}

-- The three assignments of a review to the row.
unfoldable pub set_status : ℕ → ViolationStatus → Option ℕ → ℕ → List Violation → List Violation
set_status id status user now = update (has_id id) (reviewed status user now)

abbrev pub violation_charge : ℕ → Violation → ℕ → Charge
violation_charge id v now = record {
  id = id;
  parking_session_id = none;
  violation_id = some v.id;
  charge_type = ChargeType.violation;
  amount = v.penalty_amount;
  paid_amount = pos 0;
  status = ChargeStatus.unpaid;
  created_at = now;
}

-- The charges after a confirmation: one for the penalty, unless the violation has one.
unfoldable pub charge_penalty : ℕ → Violation → ℕ → List Charge → List Charge
charge_penalty charge_id v now charges =
    if not (is_some (first (charges_for v.id) charges)) && ltb 0 v.penalty_amount
    then charges ++ violation_charge charge_id v now ∷ []
    else charges

abbrev pub is_status : ViolationStatus → ViolationStatus → Bool
is_status registered registered = true
is_status confirmed confirmed = true
is_status cancelled cancelled = true
is_status _ _ = false
