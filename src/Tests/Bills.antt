-- ===== src/Tests/Bills.antt =====
-- Witnesses on payments and adjustments.
use parking_system.Common.{
  ◌≡◌, min, refl, true, false, none, some, [], ◌∷◌, arith, All, first, select, update,
}
use parking_system.Common.Int.{pos}
use parking_system.Python.{codes}
use parking_system.Model.{ChargeStatus, Payment}
use parking_system.Store.{Db}
use parking_system.Finance.Charges.{
  warn, exclude, summarize_charges_for_report, allocate_payment_amounts, charge_outstanding,
  pay_charge, self_approval_decision, settle_charge,
}
use parking_system.Payments.{
  PaymentCreate, allocation_targets, paid, duplicate, create_payment, FinancialAdjustment, pending,
  approved, adjusted, approve_adjustment, new_payment, payment_plate, payment_vehicle,
}
use parking_system.Payments.Debts.{payment_covers_report}
use parking_system.Finance.Charges.Allocation.{allocated}
use parking_system.Payments.Once.{IsBooked, reference_pays_once}
use parking_system.Payments.Adjusting.{IsNotOverpaid, approve-IsNotOverpaid}
use parking_system.Tests.Fixtures.{ascii, lot, noon, charge_of}

abbrev cash : PaymentCreate
cash = record {
  reference_number = some (codes "P1");
  plate_raw = none;
  vehicle_id = none;
  amount = 450;
}

abbrev owing_lot : Db
owing_lot = record lot { charges = charge_of 1 300 ∷ charge_of 2 500 ∷ [] }

abbrev booked_payment : Payment
booked_payment = record {
  id = 70;
  reference_number = codes "P1";
  vehicle_id = none;
  plate_normalized = none;
  amount = 450;
  is_completed = true;
  paid_at = noon;
}

abbrev paid_lot : Db
paid_lot = record owing_lot {
  payments = booked_payment ∷ [];
  allocations =
      record { payment_id = 70; charge_id = 1; amount = 300 }
      ∷ record { payment_id = 70; charge_id = 2; amount = 150 }
      ∷ [];
  charges =
      record (charge_of 1 300) { paid_amount = pos 300; status = ChargeStatus.paid }
      ∷ record (charge_of 2 500) { paid_amount = pos 150 }
      ∷ [];
}

cash_is_paid :
    create_payment ascii (codes "MANY_TO_ONE") cash (codes "X") 70 noon owing_lot owing_lot
    ≡ paid booked_payment 0 true paid_lot
unfolding create_payment first new_payment allocate_payment_amounts payment_vehicle payment_plate
    select charge_outstanding update settle_charge pay_charge
cash_is_paid = refl

reference_pays_once_example :
    IsBooked (codes "P1") cash.amount booked_payment 0 owing_lot paid_lot
    × (create_payment ascii
          (codes "MANY_TO_ONE")
          (record cash { amount = 900 })
          (codes "Y")
          71
          noon
          paid_lot
          paid_lot
        ≡ duplicate booked_payment false paid_lot)
reference_pays_once_example =
    reference_pays_once ascii (codes "MANY_TO_ONE") cash (record cash { amount = 900 }) (codes "P1")
      (codes "X") (codes "Y") 70 71 noon noon 0 true booked_payment owing_lot owing_lot paid_lot
      refl refl cash_is_paid

payment_covers_report_example :
    allocated (allocate_payment_amounts (allocation_targets owing_lot none) 450).0
    ≡ min 450 (summarize_charges_for_report owing_lot.charges exclude).unpaid_total
payment_covers_report_example = payment_covers_report owing_lot exclude 450

-- A waiver of more than is owed.
abbrev waiver : FinancialAdjustment
waiver = record {
  id = 80;
  on_charge = true;
  entity_id = 1;
  amount = pos 900;
  requested_by = some 3;
  approved_by = none;
  approved_at = none;
  status = pending;
}

waiver_is_approved :
    approve_adjustment warn 80 (some 3) noon (waiver ∷ []) (charge_of 1 300 ∷ [])
    ≡ adjusted true
        (record waiver { approved_by = some 3; approved_at = some noon; status = approved } ∷ [])
        (record (charge_of 1 300) { paid_amount = pos 300; status = ChargeStatus.paid } ∷ [])
unfolding approve_adjustment first self_approval_decision update settle_charge charge_outstanding
waiver_is_approved = refl

debt-IsNotOverpaid : All IsNotOverpaid (charge_of 1 300 ∷ [])
debt-IsNotOverpaid = (omega arith, tt)

approve-IsNotOverpaid_example :
    All IsNotOverpaid
      (record (charge_of 1 300) { paid_amount = pos 300; status = ChargeStatus.paid } ∷ [])
approve-IsNotOverpaid_example =
    approve-IsNotOverpaid warn 80 (some 3) noon (waiver ∷ [])
      (record waiver { approved_by = some 3; approved_at = some noon; status = approved } ∷ [])
      (charge_of 1 300 ∷ [])
      (record (charge_of 1 300) { paid_amount = pos 300; status = ChargeStatus.paid } ∷ []) true
      debt-IsNotOverpaid waiver_is_approved
