-- ===== src/Payments.antt =====
-- backend/app/modules/finance/router.py: create_payment and approve_adjustment. The audit log is left
-- out.
pub mod Once
pub mod Adjusting
pub mod Debts
use parking_system.Common.{
  ℕ, ◌-◌, Bool, true, false, not, ◌&&◌, ◌||◌, Option, none, some, List, [], ◌∷◌, ◌++◌, map, leb,
  ◌==◌, if◌then◌else◌, first, select, update, any, text_eq, is_some, is_id,
}
use parking_system.Common.Int.{ℤ, pos, ◌+ℤ◌, min_ℤ}
use parking_system.Python.{Python, Text}
use parking_system.Model.{
  Charge, ChargeStatus, ChargeType, Payment, PaymentAllocation, Vehicle, ParkingSession,
}
use parking_system.Store.{Db, Violation}
use parking_system.Plate.{normalize_plate}
use parking_system.Rules.Facts.{is_unpaid}
use parking_system.Finance.Charges.{
  allocate_payment_amounts, pay_charge, settle_charge, charge_outstanding, ApprovalPolicy,
  self_approval_decision,
}

-- ORDER BY … ASC, stable.
unfoldable pub insert_asc : (Charge → ℕ) → Charge → List Charge → List Charge
insert_asc key a [] = a ∷ []
insert_asc key a (x ∷ xs) =
    let rest = insert_asc key a xs in if leb (key a) (key x) then a ∷ x ∷ xs else x ∷ rest

unfoldable pub sort_asc : (Charge → ℕ) → List Charge → List Charge
unfolding insert_asc
sort_asc key [] = []
sort_asc key (x ∷ xs) = insert_asc key x (sort_asc key xs)

abbrev pub type_priority : Charge → ℕ
type_priority c = elim c.charge_type [ ChargeType.parking ↦ 0 | ChargeType.violation ↦ 1 ]

-- The charge is of a session or of a violation of the plate.
abbrev pub of_plate : Db → Text → Charge → Bool
of_plate db plate c =
    any (λ s. text_eq s.plate_normalized plate && is_id c.parking_session_id s.id) db.sessions
    || any
        (λ v.
          elim v.plate_normalized [ none ↦ false | some p ↦ text_eq p plate ]
          && is_id c.violation_id v.id)
        db.violations

-- `_build_allocation_query`: without a plate, the unpaid charges of all.
unfoldable pub allocation_targets : Db → Option Text → List Charge
unfolding sort_asc
allocation_targets db none =
    sort_asc (λ c. c.created_at) (select (λ c. is_unpaid c.status) db.charges)
allocation_targets db (some plate) = sort_asc type_priority (
    sort_asc (λ c. c.created_at)
      (select (λ c. is_unpaid c.status && of_plate db plate c) db.charges))

-- `PaymentCreate`
pub record PaymentCreate : Type 0 where
  pub reference_number : Option Text
  pub plate_raw : Option Text
  pub vehicle_id : Option ℕ
  pub amount : ℕ

-- `body.reference_number`, where an empty text is false.
abbrev pub given : Option Text → Option Text
given none = none
given (some []) = none
given (some (c ∷ s)) = some (c ∷ s)

abbrev pub has_reference : Text → Payment → Bool
has_reference reference p = text_eq p.reference_number reference

unfoldable pub find_given : Option Text → List Payment → Option Payment
find_given none payments = none
find_given (some reference) payments = first (has_reference reference) payments

unfoldable pub payment_plate : Python → Text → PaymentCreate → Option Text
payment_plate py mapping body = elim (given body.plate_raw) [
  | none ↦ none
  | some raw ↦ normalize_plate py mapping (some raw) none
]

abbrev pub vehicle_of : List Vehicle → Option Text → Option ℕ
vehicle_of vehicles none = none
vehicle_of vehicles (some plate) = elim (first (λ v. text_eq v.plate_normalized plate) vehicles) [
  | none ↦ none
  | some v ↦ some v.id
]

unfoldable pub payment_vehicle : Python → Text → PaymentCreate → List Vehicle → Option ℕ
payment_vehicle py mapping body vehicles = elim body.vehicle_id [
  | some id ↦ some id
  | none ↦ vehicle_of vehicles (payment_plate py mapping body)
]

-- The loop over the allocations, on the rows.
unfoldable pub pay_rows : List (Charge × ℕ) → List Charge → List Charge
pay_rows [] charges = charges
pay_rows ((c, alloc) ∷ allocs) charges =
    pay_rows allocs (update (λ d. d.id == c.id) (λ d. settle_charge (pay_charge alloc d)) charges)

abbrev pub allocation_row : ℕ → Charge × ℕ → PaymentAllocation
allocation_row payment_id (c, alloc) = record {
  payment_id = payment_id;
  charge_id = c.id;
  amount = alloc;
}

-- The answer of `create_payment`: of a new payment, what is left as credit and the warning
-- NO_PLATE_GLOBAL_ALLOCATION; of a known one, whether it came in at the same time.
pub data PaymentReply : Type 0 where
  paid : Payment → ℕ → Bool → Db → PaymentReply
  duplicate : Payment → Bool → Db → PaymentReply

-- The transaction on the tables that it finds.
unfoldable pub book_payment : Payment → Db → PaymentReply
unfolding pay_rows allocation_targets
book_payment p at =
    let (allocs, remaining) =
      allocate_payment_amounts (allocation_targets at p.plate_normalized) p.amount in
    paid p remaining (not (is_some p.plate_normalized) && not (is_some p.vehicle_id)) (record at {
      payments = at.payments ++ p ∷ [];
      allocations = at.allocations ++ map (allocation_row p.id) allocs;
      charges = pay_rows allocs at.charges;
    })

-- `_do`, where the unique constraint on the reference may be broken.
unfoldable pub insert_payment : Option Payment → Payment → Db → PaymentReply
unfolding book_payment
insert_payment (some q) p at = duplicate q true at
insert_payment none p at = book_payment p at

abbrev pub or_generated : Option Text → Text → Text
or_generated none generated = generated
or_generated (some r) generated = r

unfoldable pub new_payment : Python → Text → PaymentCreate → Text → ℕ → ℕ → Db → Payment
new_payment py mapping body generated id now db = record {
  id = id;
  reference_number = or_generated (given body.reference_number) generated;
  vehicle_id = payment_vehicle py mapping body db.vehicles;
  plate_normalized = payment_plate py mapping body;
  amount = body.amount;
  is_completed = true;
  paid_at = now;
}

-- `create_payment` once the reference is looked up.
unfoldable pub payment_unseen :
    Option Payment → Python → Text → PaymentCreate → Text → ℕ → ℕ → Db → Db → PaymentReply
unfolding insert_payment
payment_unseen (some q) py mapping body generated id now db at = duplicate q false at
payment_unseen none py mapping body generated id now db at =
    let p = new_payment py mapping body generated id now db in
    insert_payment (first (has_reference p.reference_number) at.payments) p at

-- `create_payment`: `db` is what it reads and `at` what its transaction finds; `generated` is the
-- reference that is made up where the body has none.
unfoldable pub create_payment :
    Python → Text → PaymentCreate → Text → ℕ → ℕ → (db at : Db) → PaymentReply
unfolding payment_unseen find_given
create_payment py mapping body generated id now db at =
    payment_unseen (find_given (given body.reference_number) db.payments) py mapping body generated
      id now db at

pub data AdjustmentStatus : Type 0 where
  pending approved : AdjustmentStatus

-- `entity_type` is CHARGE where `on_charge` is true.
pub record FinancialAdjustment : Type 0 where
  pub id : ℕ
  pub on_charge : Bool
  pub entity_id : ℕ
  pub amount : ℤ
  pub requested_by : Option ℕ
  pub approved_by : Option ℕ
  pub approved_at : Option ℕ
  pub status : AdjustmentStatus

pub data Approval : Type 0 where
  adjusted : Bool → List FinancialAdjustment → List Charge → Approval
  adjustment_not_found already_decided self_approval_blocked : Approval

abbrev pub is_pending : AdjustmentStatus → Bool
is_pending pending = true
is_pending approved = false

-- What an approval does to an unpaid charge.
unfoldable pub adjust_charge : ℤ → Charge → Charge
unfolding min_ℤ ◌+ℤ◌
adjust_charge amount c =
    settle_charge (record c { paid_amount = min_ℤ (pos c.amount) (c.paid_amount +ℤ amount) })

abbrev pub adjusts : FinancialAdjustment → Charge → Bool
adjusts a c = a.on_charge && (c.id == a.entity_id) && is_unpaid c.status

unfoldable pub approve_found :
    Option FinancialAdjustment
    → ApprovalPolicy
    → Option ℕ
    → ℕ
    → List FinancialAdjustment
    → List Charge
    → Approval
unfolding adjust_charge
approve_found none policy user now adjustments charges = adjustment_not_found
approve_found (some a) policy user now adjustments charges =
    let (allowed, self_approval) = self_approval_decision policy a.requested_by user in
    if not (is_pending a.status)
    then already_decided
    else if not allowed
    then self_approval_blocked
    else adjusted self_approval
        (update (λ b. b.id == a.id)
          (λ b. record b { status = approved; approved_by = user; approved_at = some now })
          adjustments)
        (update (adjusts a) (adjust_charge a.amount) charges)

-- `approve_adjustment`; the policy is what `resolve_self_approval_policy` gives.
unfoldable pub approve_adjustment :
    ApprovalPolicy → ℕ → Option ℕ → ℕ → List FinancialAdjustment → List Charge → Approval
unfolding approve_found
approve_adjustment policy id user now adjustments charges =
    approve_found (first (λ b. b.id == id) adjustments) policy user now adjustments charges
