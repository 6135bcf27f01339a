-- ===== src/Gate/Exit/Credit.antt =====
-- What a prepaid credit pays of an exit's charge.
use parking_system.Common.{
  ℕ, ◌+◌, ◌-◌, ◌≤◌, ◌<◌, ◌≡◌, refl, min, Bool, true, Option, none, some, List, [], ◌∷◌, arith,
  some_same, All, total, subst, select, latest, latest-select, is_id, ◌||◌, ◌&&◌, ◌*◌, ◌==◌, inl,
  inr, Bool-cases, if◌then◌else◌,
}
use parking_system.Common.Int.{◌+ℤ◌}
use parking_system.Model.{Charge, Payment, PaymentAllocation, ParkingSession}
use parking_system.Store.{Db}
use parking_system.Finance.Charges.{
  charge_outstanding, pay_charge, settle_charge, payment_unallocated_credit,
}
use parking_system.Gate.Exit.{
  settle_payments, allocated_sum, settle_with, Settlement, settle_exit_with_prepaid_credit,
  recent_payments, is_paid,
}
use parking_system.Rules.Facts.{is_unpaid}
use parking_system.Finance.Night.{second}

outstanding-pay :
    (a : ℕ) (c : Charge)
    → a ≤ charge_outstanding c
    → charge_outstanding (pay_charge a c) + a ≡ charge_outstanding c
unfolding charge_outstanding pay_charge ◌+ℤ◌
outstanding-pay a c h = ground arith

outstanding-min :
    (credit : ℕ) (c : Charge)
    → charge_outstanding (pay_charge (min credit (charge_outstanding c)) c)
        + min credit (charge_outstanding c)
      ≡ charge_outstanding c
outstanding-min credit c = outstanding-pay (min credit (charge_outstanding c)) c (omega arith)

-- The loop pays exactly what it allocates.
settle-outstanding :
    (allocations : List PaymentAllocation) (payments : List Payment) (c : Charge)
    → let (allocs, paid) = settle_payments allocations payments c in
      charge_outstanding paid + total (λ a. a.amount) allocs ≡ charge_outstanding c
unfolding settle_payments total
settle-outstanding allocations [] c = omega arith
settle-outstanding allocations (p ∷ payments) c =
    let credit = payment_unallocated_credit p.amount (allocated_sum allocations p.id) in
    elim (Bool-cases (credit == 0)) [
      | inl empty ↦ rw empty (settle-outstanding allocations payments c)
      | inr usable ↦ elim (Bool-cases (charge_outstanding c == 0)) [
        | inl paid ↦ rw (usable, paid) (omega arith)
        | inr owed ↦
            rw (usable, owed)
              (omega (
                arith,
                outstanding-min credit c,
                settle-outstanding allocations payments
                    (pay_charge (min credit (charge_outstanding c)) c),
              ))
      ]
    ]

-- Every allocation is positive and within the credit that its payment had left.
settle_fits :
    (allocations : List PaymentAllocation) (payments : List Payment) (c : Charge)
    → All (λ a. 0 < a.amount) (settle_payments allocations payments c).0
unfolding settle_payments
settle_fits allocations [] c = tt
settle_fits allocations (p ∷ payments) c =
    let credit = payment_unallocated_credit p.amount (allocated_sum allocations p.id) in
    elim (Bool-cases (credit == 0)) [
      | inl empty ↦ rw empty (settle_fits allocations payments c)
      | inr usable ↦ elim (Bool-cases (charge_outstanding c == 0)) [
        | inl paid ↦ rw (usable, paid) tt
        | inr owed ↦
            rw (usable, owed)
              (
                ground arith,
                settle_fits allocations payments (pay_charge (min credit (charge_outstanding c)) c),
              )
      ]
    ]

outstanding-settle : (c : Charge) → charge_outstanding (settle_charge c) ≡ charge_outstanding c
unfolding settle_charge charge_outstanding
outstanding-settle c = ground arith

status-settle :
    (allocations : List PaymentAllocation) (payments : List Payment) (c : Charge)
    → (settle_payments allocations payments c).1.status ≡ c.status
unfolding settle_payments pay_charge
status-settle allocations [] c = refl
status-settle allocations (p ∷ payments) c =
    let credit = payment_unallocated_credit p.amount (allocated_sum allocations p.id) in
    elim (Bool-cases (credit == 0)) [
      | inl empty ↦ rw empty (status-settle allocations payments c)
      | inr usable ↦ elim (Bool-cases (charge_outstanding c == 0)) [
        | inl paid ↦ rw (usable, paid) refl
        | inr owed ↦
            rw (usable, owed)
              (status-settle allocations payments
                (pay_charge (min credit (charge_outstanding c)) c))
      ]
    ]

-- What a settlement of a charge says of it.
pub record IsExact (c : Charge) (s : Settlement) : Type 0 where
  pub conserved : charge_outstanding s.charge + s.credit_used ≡ charge_outstanding c
  pub used : 0 < s.credit_used
  pub settled : s.settled ≡ (charge_outstanding s.charge == 0)

settled-paid :
    (c : Charge)
    → is_unpaid c.status ≡ true
    → is_paid (settle_charge c).status ≡ (charge_outstanding (settle_charge c) == 0)
unfolding settle_charge charge_outstanding
settled-paid c h = ground arith

settle_with-IsExact :
    (c : Charge) (r : List PaymentAllocation × Charge) (s : Settlement)
    → is_unpaid r.1.status ≡ true
    → charge_outstanding r.1 + total (λ a. a.amount) r.0 ≡ charge_outstanding c
    → settle_with r ≡ some s
    → IsExact c s
unfolding settle_with
settle_with-IsExact c (allocs, paid) s unpaid same h =
    elim (Bool-cases (total (λ a. a.amount) allocs == 0)) [
      | inl unused ↦ cc (simp unused at h)
      | inr used ↦ subst (IsExact c) (some_same (simp used at h)) (record {
        conserved = rw (outstanding-settle paid) same;
        used = ground arith;
        settled = settled-paid paid unpaid;
      })
    ]

-- The unpaid charges of a session.
abbrev pub owed_by : ParkingSession → Charge → Bool
owed_by s c = is_id c.parking_session_id s.id && is_unpaid c.status

-- A settlement at an exit pays the latest unpaid charge of the session. It takes from the charge exactly
-- the credit that it uses, which is not nothing, and reports the exit as settled exactly where nothing
-- of the charge is left to pay.
pub settlement-IsExact :
    (db : Db) (charges : List Charge) (session : ParkingSession) (now grace : ℕ) (s : Settlement)
    → settle_exit_with_prepaid_credit db charges session now grace ≡ some s
    → (c : Charge) × (latest (λ c. c.created_at) (select (owed_by session) charges) ≡ some c)
      × IsExact c s
unfolding settle_exit_with_prepaid_credit
settlement-IsExact db charges session now grace s h =
    elim (Bool-cases ((grace == 0) || (session.final_amount == 0))) [
      | inl off ↦ cc (simp off at h)
      | inr due ↦
          found (latest (λ c. c.created_at) (select (owed_by session) charges)) refl (simp due at h)
    ]
  where
    since : List Payment
    since = recent_payments db session.plate_normalized (now - grace * 60 * second)

    found :
        (o : Option Charge)
        → latest (λ c. c.created_at) (select (owed_by session) charges) ≡ o
        → elim o [
          | none ↦ none
          | some c ↦
              if charge_outstanding c == 0
              then none
              else settle_with (settle_payments db.allocations since c)
        ]
          ≡ some s
        → (c : Charge) × (latest (λ c. c.created_at) (select (owed_by session) charges) ≡ some c)
          × IsExact c s
    found none e k = cc
    found (some c) e k = elim (Bool-cases (charge_outstanding c == 0)) [
      | inl clear ↦ cc (simp clear at k)
      | inr owed ↦ (
        c,
        e,
        settle_with-IsExact c (settle_payments db.allocations since c) s
            (rw (status-settle db.allocations since c)
              (ground (arith, latest-select (λ c. c.created_at) (owed_by session) charges e)))
            (settle-outstanding db.allocations since c) (simp owed at k),
      )
    ]
