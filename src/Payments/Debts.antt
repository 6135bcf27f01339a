-- ===== src/Payments/Debts.antt =====
-- The debt that the report of backend/app/modules/finance/service.py shows is what a payment of any
-- plate pays.
use parking_system.Common.{
  ℕ, ◌+◌, ◌≡◌, min, refl, none, List, [], ◌∷◌, arith, if◌then◌else◌, select, total,
}
use parking_system.Model.{Charge, ChargeStatus}
use parking_system.Store.{Db}
use parking_system.Rules.Facts.{is_unpaid}
use parking_system.Finance.Charges.{
  VoidedMode, charge_outstanding, allocate_payment_amounts, summarize_charges_for_report,
}
use parking_system.Finance.Charges.Allocation.{allocated, allocated-min}
use parking_system.Finance.Charges.Report.{owing, reported_debt}
use parking_system.Payments.{insert_asc, sort_asc, allocation_targets}

total-insert_asc :
    (f key : Charge → ℕ) (a : Charge) (cs : List Charge)
    → total f (insert_asc key a cs) ≡ f a + total f cs
unfolding insert_asc total
total-insert_asc f key a [] = refl
total-insert_asc f key a (c ∷ cs) = ground (arith, total-insert_asc f key a cs)

total-sort_asc : (f key : Charge → ℕ) (cs : List Charge) → total f (sort_asc key cs) ≡ total f cs
unfolding sort_asc total
total-sort_asc f key [] = refl
total-sort_asc f key (c ∷ cs) =
    omega (arith, total-insert_asc f key c (sort_asc key cs), total-sort_asc f key cs)

-- What the unpaid rows owe.
owing_of_unpaid :
    (cs : List Charge)
    → total charge_outstanding (select (λ c. is_unpaid c.status) cs) ≡ total owing cs
unfolding select total
owing_of_unpaid [] = refl
owing_of_unpaid (c ∷ cs) = by_status c.status (owing_of_unpaid cs)
  where
    by_status :
        (s : ChargeStatus)
        → total charge_outstanding (select (λ c. is_unpaid c.status) cs) ≡ total owing cs
        → total charge_outstanding (
            if is_unpaid s
            then c ∷ select (λ c. is_unpaid c.status) cs
            else select (λ c. is_unpaid c.status) cs)
          ≡ elim s [ ChargeStatus.unpaid ↦ charge_outstanding c | _ ↦ 0 ] + total owing cs
    by_status ChargeStatus.unpaid h = omega (arith, h)
    by_status ChargeStatus.paid h = omega (arith, h)
    by_status ChargeStatus.voided h = omega (arith, h)

-- A payment that names no plate is spread over the debt that the report of all charges shows, however
-- the report treats voided rows: it allocates the smaller of its amount and this debt.
pub payment_covers_report :
    (db : Db) (mode : VoidedMode) (amount : ℕ)
    → allocated (allocate_payment_amounts (allocation_targets db none) amount).0
      ≡ min amount (summarize_charges_for_report db.charges mode).unpaid_total
unfolding allocation_targets
payment_covers_report db mode amount =
    let unpaid = select (λ c. is_unpaid c.status) db.charges in
    omega (
      arith,
      allocated-min (sort_asc (λ c. c.created_at) unpaid) amount,
      total-sort_asc charge_outstanding (λ c. c.created_at) unpaid,
      owing_of_unpaid db.charges,
      reported_debt db.charges mode,
    )
