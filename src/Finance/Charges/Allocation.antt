-- ===== src/Finance/Charges/Allocation.antt =====
-- A payment is spread over charges without loss, in order, and never beyond what is owed.
use parking_system.Common.{ℕ, ◌+◌, ◌-◌, ◌≤◌, ◌<◌, ◌≡◌, min, List, [], ◌∷◌, All, total, arith}
use parking_system.Model.{Charge}
use parking_system.Finance.Charges.{charge_outstanding, allocate_payment_amounts}

abbrev pub allocated : List (Charge × ℕ) → ℕ
allocated = total (λ a. a.1)

-- No cent is lost: what is allocated and what is left add up to the payment.
pub allocate_conserves :
    (charges : List Charge) (amount : ℕ)
    → let (allocs, remaining) = allocate_payment_amounts charges amount in
      allocated allocs + remaining ≡ amount
unfolding allocate_payment_amounts total
allocate_conserves [] amount = omega arith
allocate_conserves (c ∷ cs) amount =
    ground (arith, allocate_conserves cs (amount - min amount (charge_outstanding c)))

-- Every allocation is positive and at most what its charge owes.
pub allocate_fits :
    (charges : List Charge) (amount : ℕ)
    → All
        (λ a. (0 < a.1) × (a.1 ≤ charge_outstanding a.0))
        (allocate_payment_amounts charges amount).0
unfolding allocate_payment_amounts
allocate_fits [] amount = tt
allocate_fits (c ∷ cs) amount =
    ground (arith, allocate_fits cs (amount - min amount (charge_outstanding c)))

-- Credit is left over exactly where it exceeds all that is owed: what is allocated is the smaller
-- of the payment and the sum of the debts.
pub allocated-min :
    (charges : List Charge) (amount : ℕ)
    → allocated (allocate_payment_amounts charges amount).0
      ≡ min amount (total charge_outstanding charges)
unfolding allocate_payment_amounts total
allocated-min [] amount = omega arith
allocated-min (c ∷ cs) amount =
    ground (arith, allocated-min cs (amount - min amount (charge_outstanding c)))
