-- ===== src/Finance/Tariff/Order.antt =====
-- How the amount of a stay depends on its length and on the way to round.
use native.Mathlib.Nat.{mul-le-mul_right, mul-le-mul_left, zero-mul}
use parking_system.Common.{
  ℕ, ◌+◌, ◌-◌, ◌*◌, ◌/◌, ◌≤◌, ◌≡◌, refl, false, none, some, Option, arith, inl, inr, Bool-cases,
  ◌==◌,
}
use parking_system.Common.Int.{pos}
use parking_system.Model.{Tariff}
use parking_system.Finance.Tariff.{
  Rounding, hour_up, minute, DayDefinition, hours_24, calendar, TariffPolicy, or_zero, ceil_div,
  cost, total_days, night_part, exact_cost, raw_base, billable_seconds, calculate_amounts,
}
use parking_system.Finance.Tariff.Bounds.{
  night_secs, base_of, capped_base, amount_number, round_mono, round_exact, capped_mono,
  raised_mono,
}

cost_mono : (r : Rounding) (s s' rate : ℕ) → s ≤ s' → cost r s rate ≤ cost r s' rate
unfolding cost ceil_div
cost_mono minute s s' rate h = mul-le-mul_right rate h
cost_mono hour_up s s' rate h = mul-le-mul_right 3600 (mul-le-mul_right rate (omega arith))

days_mono :
    (def : DayDefinition) (e : Option ℕ) (d d' : ℕ)
    → d ≤ d'
    → total_days def e d ≤ total_days def e d'
unfolding total_days
days_mono hours_24 e d d' h = omega arith
days_mono calendar none d d' h = omega arith
days_mono calendar (some t) d d' h = omega arith

no_night :
    (t : Tariff) (d : ℕ) (e : Option ℕ) (p : TariffPolicy)
    → p.night_enabled ≡ false
    → night_secs t d e p ≡ 0
unfolding night_part
no_night t d e p h = rw h

exact_mono :
    (t : Tariff) (p : TariffPolicy) (s s' : ℕ) → s ≤ s' → exact_cost t p 0 s ≤ exact_cost t p 0 s'
unfolding exact_cost
exact_mono t p s s' h = omega (arith, cost_mono p.rounding s s' t.hourly_amount h)

base_mono :
    (t : Tariff) (d d' : ℕ) (e : Option ℕ) (p : TariffPolicy)
    → p.night_enabled ≡ false
    → d ≤ d'
    → base_of t d e p ≤ base_of t d' e p
unfolding raw_base billable_seconds
base_mono t d d' e p off h =
    rw (no_night t d e p off, no_night t d' e p off)
      (round_mono (exact_cost t p 0 (billable_seconds t d - 0))
        (exact_cost t p 0 (billable_seconds t d' - 0))
        (exact_mono t p (billable_seconds t d - 0) (billable_seconds t d' - 0) (omega arith)))

capped_base_mono :
    (t : Tariff) (d d' : ℕ) (e : Option ℕ) (p : TariffPolicy)
    → base_of t d e p ≤ base_of t d' e p
    → d ≤ d'
    → capped_base t d e p ≤ capped_base t d' e p
capped_base_mono t d d' e p b h = elim (Bool-cases (or_zero t.daily_max_amount == 0)) [
  | inl free ↦ rw free b
  | inr due ↦ rw due (
      capped_mono _ _ _ _
        (mul-le-mul_left (or_zero t.daily_max_amount) (days_mono p.day_definition e d d' h)) b)
]

-- With the night tariff off, a longer stay never costs less: under either way to round, either
-- definition of a day, with or without a cap and a minimum charge.
pub final_mono :
    (t : Tariff) (d d' : ℕ) (e : Option ℕ) (p : TariffPolicy)
    → p.night_enabled ≡ false
    → d ≤ d'
    → (calculate_amounts (some t) (some (pos d)) e p).final
      ≤ (calculate_amounts (some t) (some (pos d')) e p).final
unfolding billable_seconds
final_mono t d d' e p off h =
    rw (amount_number t d e p, amount_number t d' e p)
      (ground (
        arith,
        raised_mono p.min_charge_amount (capped_base t d e p) (capped_base t d' e p),
        capped_base_mono t d d' e p (base_mono t d d' e p off h) h,
      ))

exact_hour :
    (t : Tariff) (p : TariffPolicy) (s : ℕ)
    → p.rounding ≡ hour_up
    → exact_cost t p 0 s ≡ (s + 3599) / 3600 * t.hourly_amount * 3600
unfolding exact_cost cost ceil_div
exact_hour t p s up = rw up (omega arith)

raw_hour :
    (t : Tariff) (p : TariffPolicy) (s : ℕ)
    → p.rounding ≡ hour_up
    → raw_base t p 0 s ≡ (s + 3599) / 3600 * t.hourly_amount
unfolding raw_base
raw_hour t p s up = rw (exact_hour t p s up) (round_exact ((s + 3599) / 3600 * t.hourly_amount))

billable_lem : (t : Tariff) (d : ℕ) → billable_seconds t d ≡ d - t.free_minutes * 60
unfolding billable_seconds
billable_lem t d = refl

-- HOUR_UP with no night tariff, cap or minimum: the hourly amount for every hour begun after the
-- free time.
pub hour_up_price :
    (t : Tariff) (d : ℕ) (e : Option ℕ) (p : TariffPolicy)
    → p.rounding ≡ hour_up
    → p.night_enabled ≡ false
    → p.min_charge_amount ≡ 0
    → t.daily_max_amount ≡ none
    → (calculate_amounts (some t) (some (pos d)) e p).final
      ≡ (d - t.free_minutes * 60 + 3599) / 3600 * t.hourly_amount
hour_up_price t d e p up off none_least no_cap =
    rw (amount_number t d e p, no_night t d e p off)
      (ground (
        arith,
        raw_hour t p (billable_seconds t d - 0) up,
        billable_lem t d,
        zero-mul t.hourly_amount,
      ))
