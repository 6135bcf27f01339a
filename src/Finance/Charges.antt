-- ===== src/Finance/Charges.antt =====
-- Charges and how payments are spread over them: charge_outstanding, allocate_payment_amounts,
-- payment_unallocated_credit, self_approval_decision and summarize_charges_for_report of
-- backend/app/modules/finance/service.py.
pub mod Allocation
pub mod Report
use parking_system.Common.{
  ℕ, ◌+◌, ◌-◌, ◌≤◌, min, Bool, true, false, ◌&&◌, ◌||◌, Option, none, some, List, [], ◌∷◌, ltb, leb,
  ◌==◌, if◌then◌else◌,
}
use parking_system.Common.Int.{ℤ, pos, ◌+ℤ◌, pos_part, neg_part}
use parking_system.Model.{Charge, ChargeStatus}

-- max(0, amount - paid_amount)
unfoldable pub charge_outstanding : Charge → ℕ
charge_outstanding c = c.amount + neg_part c.paid_amount - pos_part c.paid_amount

-- The loop of `allocate_payment_amounts`: the allocations in order, and what is left of the
-- payment. The amount of a payment is positive (`Field(gt=0)`), or is a credit above 0.
unfoldable pub allocate_payment_amounts : List Charge → ℕ → List (Charge × ℕ) × ℕ
allocate_payment_amounts [] remaining = ([], remaining)
allocate_payment_amounts (c ∷ unpaid_charges) remaining =
    let alloc = min remaining (charge_outstanding c) in
    let rest = allocate_payment_amounts unpaid_charges (remaining - alloc) in
    if remaining == 0
    then ([], remaining)
    else if charge_outstanding c == 0
    then rest
    else ((c, alloc) ∷ rest.0, rest.1)

-- What `create_payment` and `settle_exit_with_prepaid_credit` do to a charge that is paid in part.
unfoldable pub pay_charge : ℕ → Charge → Charge
unfolding ◌+ℤ◌
pay_charge alloc c = record c { paid_amount = c.paid_amount +ℤ pos alloc }

-- `if charge_outstanding(charge) <= 0: charge.status = "PAID"`
unfoldable pub settle_charge : Charge → Charge
settle_charge c = if charge_outstanding c == 0 then record c { status = ChargeStatus.paid } else c

unfoldable pub payment_unallocated_credit : ℕ → ℕ → ℕ
payment_unallocated_credit amount allocated_sum = amount - allocated_sum

pub data ApprovalPolicy : Type 0 where
  warn block : ApprovalPolicy

-- (allowed, self_approval)
unfoldable pub self_approval_decision : ApprovalPolicy → Option ℕ → Option ℕ → Bool × Bool
self_approval_decision block (some requested_by) (some user_id) =
    if requested_by == user_id then (false, true) else (true, false)
self_approval_decision warn (some requested_by) (some user_id) = (true, requested_by == user_id)
self_approval_decision _ _ _ = (true, false)

pub data VoidedMode : Type 0 where
  separate exclude : VoidedMode

pub record Summary : Type 0 where
  pub unpaid_total : ℕ
  pub unpaid_count : ℕ
  pub paid_total : ℤ
  pub paid_count : ℕ
  pub voided_total : ℕ
  pub voided_count : ℕ

-- The sums before the first row.
abbrev pub no_rows : Summary
no_rows = record {
  unpaid_total = 0;
  unpaid_count = 0;
  paid_total = pos 0;
  paid_count = 0;
  voided_total = 0;
  voided_count = 0;
}

abbrev pub add_paid : ℤ → Summary → Summary
add_paid amount s = record s { paid_total = s.paid_total +ℤ amount; paid_count = s.paid_count + 1 }

abbrev pub add_open : Charge → Summary → Summary
add_open c s =
    let outstanding = charge_outstanding c in
    if outstanding == 0
    then add_paid (pos c.amount) s
    else record s { unpaid_total = s.unpaid_total + outstanding; unpaid_count = s.unpaid_count + 1 }

-- One round of the loop of `summarize_charges_for_report`.
unfoldable pub summarize_row : ChargeStatus → Charge → Summary → Summary
summarize_row ChargeStatus.voided c s = record s {
  voided_total = s.voided_total + c.amount;
  voided_count = s.voided_count + 1;
}
summarize_row ChargeStatus.paid c s = add_paid c.paid_amount s
summarize_row ChargeStatus.unpaid c s = add_open c s

unfoldable pub summarize_rows : List Charge → Summary → Summary
summarize_rows [] s = s
summarize_rows (c ∷ rows) s = summarize_rows rows (summarize_row c.status c s)

unfoldable pub summarize_charges_for_report : List Charge → VoidedMode → Summary
summarize_charges_for_report rows separate = summarize_rows rows no_rows
summarize_charges_for_report rows exclude = record (summarize_rows rows no_rows) {
  voided_total = 0;
  voided_count = 0;
}

-- `active.grand_total`
unfoldable pub grand_total : Summary → ℤ
grand_total s = pos s.unpaid_total +ℤ s.paid_total
