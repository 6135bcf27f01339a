-- ===== src/Gate/Exit.antt =====
-- The money of an exit: close_session_amounts and settle_exit_with_prepaid_credit of
-- backend/app/modules/finance/service.py.
pub mod Credit
use parking_system.Common.{
  ℕ, ◌-◌, ◌*◌, ◌/◌, min, Bool, true, false, ◌&&◌, ◌||◌, Option, none, some, List, [], ◌∷◌, leb,
  ◌==◌, if◌then◌else◌, select, sort_desc, latest, total, text_eq, map, is_id,
}
use parking_system.Common.Int.{pos}
use parking_system.Python.{Text}
use parking_system.Model.{
  ParkingSession, Charge, ChargeStatus, ChargeType, Payment, PaymentAllocation, Tariff,
}
use parking_system.Store.{Db, Warning}
use parking_system.Settings.{resolve_tariff_policy}
use parking_system.Finance.Night.{second}
use parking_system.Finance.Tariff.{Amounts, AmountWarning, calculate_amounts, get_active_tariff}
use parking_system.Finance.Charges.{
  charge_outstanding, pay_charge, settle_charge, payment_unallocated_credit,
}
use parking_system.Rules.Facts.{is_unpaid}
use parking_system.Gate.Request.{Config}

-- `max(0, int((now - entry_at).total_seconds()))`
unfoldable pub duration_between : ℕ → ℕ → ℕ
duration_between entry_at now = (now - entry_at) / second

abbrev pub tariff_id : Option Tariff → Option ℕ
tariff_id none = none
tariff_id (some t) = some t.id

abbrev pub warning_of : AmountWarning → Warning
warning_of AmountWarning.no_active_tariff = Warning.no_active_tariff
warning_of AmountWarning.night_skipped_no_entry_time = Warning.night_skipped_no_entry_time
warning_of AmountWarning.night_tariff_applied = Warning.night_tariff_applied
warning_of AmountWarning.day_definition_fallback_24h = Warning.day_definition_fallback_24h
warning_of AmountWarning.daily_cap_applied = Warning.daily_cap_applied
warning_of AmountWarning.min_amount_applied = Warning.min_amount_applied

-- The amounts of a session that ends now, under the tariff and the policies in force.
unfoldable pub session_amounts : Config → Db → ParkingSession → ℕ → Amounts
session_amounts cfg db s now =
    calculate_amounts (get_active_tariff now db.tariffs)
      (some (pos (duration_between s.entry_at now))) (some (cfg.wall_clock s.entry_at))
      (resolve_tariff_policy cfg.py cfg.env db.app_settings)

-- What closing a session writes: the row, the charge if there is one, and the warnings.
pub record Closing : Type 0 where
  pub session : ParkingSession
  pub charge : Option Charge
  pub warnings : List Warning

unfoldable pub new_charge : ℕ → ParkingSession → ℕ → ℕ → Option Charge
new_charge id s amount now =
    if amount == 0
    then none
    else some (record {
      id = id;
      parking_session_id = some s.id;
      violation_id = none;
      charge_type = ChargeType.parking;
      amount = amount;
      paid_amount = pos 0;
      status = ChargeStatus.unpaid;
      created_at = now;
    })

unfoldable pub close_session_amounts : Config → Db → ParkingSession → ℕ → ℕ → Closing
unfolding new_charge
close_session_amounts cfg db s now id =
    let amounts = session_amounts cfg db s now in
    record {
      session = record s {
        duration_seconds = some (duration_between s.entry_at now);
        tariff_id = tariff_id (get_active_tariff now db.tariffs);
        base_amount = amounts.base;
        penalty_amount = amounts.penalty;
        discount_amount = amounts.discount;
        final_amount = amounts.final;
      };
      charge = new_charge id s amounts.final now;
      warnings = map warning_of amounts.warnings;
    }

-- The payments of the plate since `since`, newest first, at most twenty; without a plate there is
-- nothing to settle.
abbrev pub pays : Text → ℕ → Payment → Bool
pays plate since p =
    elim p.plate_normalized [ none ↦ false | some q ↦ text_eq q plate ]
    && p.is_completed
    && leb since p.paid_at

abbrev pub take {ℓ} : {A : Type ℓ} → ℕ → List A → List A
take n [] = []
take n (x ∷ xs) = let rest = take (n - 1) xs in if n == 0 then [] else x ∷ rest

unfoldable pub recent_payments : Db → Text → ℕ → List Payment
recent_payments db [] since = []
recent_payments db (c ∷ s) since =
    take 20 (sort_desc (λ p. p.paid_at) (select (pays (c ∷ s) since) db.payments))

-- The sum of what a payment is allocated to.
unfoldable pub allocated_sum : List PaymentAllocation → ℕ → ℕ
allocated_sum allocations payment_id =
    total (λ a. if a.payment_id == payment_id then a.amount else 0) allocations

-- The loop over the payments: the allocations that it makes, and the charge that they pay.
unfoldable pub settle_payments :
    List PaymentAllocation → List Payment → Charge → List PaymentAllocation × Charge
settle_payments allocations [] charge = ([], charge)
settle_payments allocations (p ∷ payments) charge =
    let credit = payment_unallocated_credit p.amount (allocated_sum allocations p.id) in
    let alloc = min credit (charge_outstanding charge) in
    let rest =
      settle_payments allocations payments
        (if credit == 0 then charge else pay_charge alloc charge) in
    if credit == 0
    then rest
    else if charge_outstanding charge == 0
    then ([], charge)
    else (record { payment_id = p.id; charge_id = charge.id; amount = alloc } ∷ rest.0, rest.1)

-- What `settle_exit_with_prepaid_credit` returns and writes; `none` is its None.
pub record Settlement : Type 0 where
  pub credit_used : ℕ
  pub charge : Charge
  pub allocations : List PaymentAllocation
  pub settled : Bool

abbrev pub is_paid : ChargeStatus → Bool
is_paid ChargeStatus.paid = true
is_paid _ = false

unfoldable pub settle_with : List PaymentAllocation × Charge → Option Settlement
settle_with (allocs, charge) =
    let used = total (λ a. a.amount) allocs in
    let paid = settle_charge charge in
    if used == 0
    then none
    else some (record {
      credit_used = used;
      charge = paid;
      allocations = allocs;
      settled = is_paid paid.status;
    })

unfoldable pub settle_exit_with_prepaid_credit :
    Db → List Charge → ParkingSession → ℕ → ℕ → Option Settlement
settle_exit_with_prepaid_credit db charges s now grace_minutes =
    if (grace_minutes == 0) || (s.final_amount == 0)
    then none
    else elim (latest (λ c. c.created_at)
        (select (λ c. is_id c.parking_session_id s.id && is_unpaid c.status) charges)) [
          | none ↦ none
          | some charge ↦
              if charge_outstanding charge == 0
              then none
              else settle_with (
                  settle_payments db.allocations
                    (recent_payments db s.plate_normalized (now - grace_minutes * 60 * second))
                    charge)
        ]
