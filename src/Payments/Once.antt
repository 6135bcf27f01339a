-- ===== src/Payments/Once.antt =====
-- A payment is booked once for a reference, and in full.
use parking_system.Common.{
  ℕ, ◌+◌, ◌≡◌, All, refl, subst, Bool, false, Option, none, some, List, [], ◌∷◌, ◌++◌, map, arith,
  first, total, text_eq_refl,
}
use parking_system.Python.{Python, Text}
use parking_system.Model.{Charge, Payment, PaymentAllocation}
use parking_system.Store.{Db}
use parking_system.Finance.Charges.{allocate_payment_amounts}
use parking_system.Finance.Charges.Allocation.{allocated, allocate_conserves}
use parking_system.Payments.{
  PaymentCreate, paid, duplicate, given, has_reference, find_given, new_payment, payment_unseen,
  insert_payment, book_payment, create_payment, allocation_row, allocation_targets, pay_rows,
  or_generated,
}

-- What a booked payment of an amount leaves: it is the reference's row, with the amount, and the
-- allocations that are added are its own and make up the amount, with the credit that is left.
pub record IsBooked (reference : Text) (amount : ℕ) (p : Payment) (remaining : ℕ)
    (before after : Db) : Type 0 where
  pub rows : List PaymentAllocation
  pub added : after.allocations ≡ before.allocations ++ rows
  pub own : All (λ a. a.payment_id ≡ p.id) rows
  pub of_amount : p.amount ≡ amount
  pub in_full : total (λ a. a.amount) rows + remaining ≡ amount
  pub found : first (has_reference reference) after.payments ≡ some p

total-rows :
    (id : ℕ) (xs : List (Charge × ℕ))
    → total (λ a. a.amount) (map (allocation_row id) xs) ≡ allocated xs
unfolding total
total-rows id [] = refl
total-rows id ((c, n) ∷ xs) = omega (arith, total-rows id xs)

own-rows :
    (id : ℕ) (xs : List (Charge × ℕ)) → All (λ a. a.payment_id ≡ id) (map (allocation_row id) xs)
own-rows id [] = tt
own-rows id ((c, n) ∷ xs) = (refl, own-rows id xs)

append_found :
    (p : Payment) (ps : List Payment)
    → first (has_reference p.reference_number) ps ≡ none
    → first (has_reference p.reference_number) (ps ++ p ∷ []) ≡ some p
unfolding first
append_found p [] h = ground (arith, text_eq_refl p.reference_number)
append_found p (q ∷ ps) h = ground (arith, append_found p ps)

paid_same :
    {p q : Payment} {m n : ℕ} {v w : Bool} {d e : Db}
    → paid p m v d ≡ paid q n w e
    → (p ≡ q) × (m ≡ n) × (d ≡ e)
paid_same h = (cc, cc, cc)

-- The database that a booking leaves, and the credit.
abbrev booked_db : Payment → Db → Db
booked_db p at =
    let (allocs, remaining) =
      allocate_payment_amounts (allocation_targets at p.plate_normalized) p.amount in
    record at {
      payments = at.payments ++ p ∷ [];
      allocations = at.allocations ++ map (allocation_row p.id) allocs;
      charges = pay_rows allocs at.charges;
    }

recorded :
    (p : Payment) (at : Db)
    → first (has_reference p.reference_number) at.payments ≡ none
    → IsBooked p.reference_number p.amount p
        (allocate_payment_amounts (allocation_targets at p.plate_normalized) p.amount).1
        at
        (booked_db p at)
recorded p at fresh =
    let targets = allocation_targets at p.plate_normalized in
    record {
      rows = map (allocation_row p.id) (allocate_payment_amounts targets p.amount).0;
      added = refl;
      own = own-rows p.id (allocate_payment_amounts targets p.amount).0;
      of_amount = refl;
      in_full = omega (
        arith,
        total-rows p.id (allocate_payment_amounts targets p.amount).0,
        allocate_conserves targets p.amount,
      );
      found = append_found p at.payments fresh;
    }

recorded_as :
    (q p : Payment) (at after : Db) (remaining : ℕ) (w : Bool)
    → first (has_reference q.reference_number) at.payments ≡ none
    → book_payment q at ≡ paid p remaining w after
    → IsBooked q.reference_number q.amount p remaining at after
unfolding book_payment
recorded_as q p at after remaining w fresh h =
    let (same, credit, db) = paid_same h in
    subst (λ d. IsBooked q.reference_number q.amount p remaining at d) db
      (subst (λ n. IsBooked q.reference_number q.amount p n at (booked_db q at)) credit
        (subst
          (λ x.
            IsBooked q.reference_number q.amount x
              (allocate_payment_amounts (allocation_targets at q.plate_normalized) q.amount).1 at
              (booked_db q at))
          same (recorded q at fresh)))

insert-IsBooked :
    (o : Option Payment) (q p : Payment) (at after : Db) (remaining : ℕ) (w : Bool)
    → first (has_reference q.reference_number) at.payments ≡ o
    → insert_payment o q at ≡ paid p remaining w after
    → IsBooked q.reference_number q.amount p remaining at after
unfolding insert_payment
insert-IsBooked none q p at after remaining w fresh h = recorded_as q p at after remaining w fresh h
insert-IsBooked (some x) q p at after remaining w fresh h = cc

unseen-IsBooked :
    (o : Option Payment) (py : Python) (mapping : Text) (body : PaymentCreate) (generated : Text)
    (id now remaining : ℕ) (w : Bool) (p : Payment) (db at after : Db)
    → payment_unseen o py mapping body generated id now db at ≡ paid p remaining w after
    → IsBooked
        (or_generated (given body.reference_number) generated)
        body.amount
        p
        remaining
        at
        after
unfolding payment_unseen new_payment
unseen-IsBooked (some x) py mapping body generated id now remaining w p db at after h = cc
unseen-IsBooked none py mapping body generated id now remaining w p db at after h =
    insert-IsBooked _ (new_payment py mapping body generated id now db) p at after remaining w refl
      h

reference_of :
    (body : PaymentCreate) (generated : Text) {reference : Text}
    → given body.reference_number ≡ some reference
    → or_generated (given body.reference_number) generated ≡ reference
reference_of body generated has = rw has refl

-- A payment that is booked has the amount of the body, and adds only allocations of its own, which
-- make up this amount with the credit that is answered; and the same reference, sent again in any
-- body, is then answered as a duplicate and books nothing.
pub reference_pays_once :
    (py : Python) (mapping : Text) (body again : PaymentCreate)
    (reference generated generated' : Text) (id id' now now' remaining : ℕ) (w : Bool) (p : Payment)
    (db at after : Db)
    → given body.reference_number ≡ some reference
    → given again.reference_number ≡ some reference
    → create_payment py mapping body generated id now db at ≡ paid p remaining w after
    → IsBooked reference body.amount p remaining at after
      × (create_payment py mapping again generated' id' now' after after ≡ duplicate p false after)
unfolding create_payment find_given payment_unseen
reference_pays_once py mapping body again reference generated generated' id id' now now' remaining w
      p db at after has has' h =
    let first_time =
      subst (λ t. IsBooked t body.amount p remaining at after) (reference_of body generated has)
        (unseen-IsBooked (find_given (given body.reference_number) db.payments) py mapping body
          generated id now remaining w p db at after h) in
    (first_time, rw (has', first_time.found) refl)
