-- ===== src/Finance/Tariff/Bounds.antt =====
-- The amount of a stay: the cap, the free time, the two ways to round.
use native.Mathlib.Nat.{mul-le-mul_right}
use parking_system.Common.{
  ℕ, ◌+◌, ◌-◌, ◌*◌, ◌/◌, ◌≤◌, ◌<◌, ◌≡◌, max, some, Option, List, [], arith, inl, inr, Bool-cases,
  ltb, ◌==◌, if◌then◌else◌,
}
use parking_system.Common.Int.{pos}
use parking_system.Model.{Tariff}
use parking_system.Finance.Tariff.{
  hour_up, minute, DayDefinition, AmountWarning, TariffPolicy, or_zero, ceil_div, round_div, cost,
  total_days, apply_daily_cap, night_part, raw_base, apply_minimum, billable_seconds, amount_for,
  calculate_amounts,
}

-- The numbers of the last two steps, without their warnings.
abbrev pub capped : ℕ → ℕ → ℕ
capped cap base = if ltb cap base then cap else base

abbrev pub raised : ℕ → ℕ → ℕ
raised least base = if ltb 0 base then if ltb base least then least else base else base

pub cap_number :
    (base : ℕ) (t : Tariff) (d : ℕ) (def : DayDefinition) (e : Option ℕ) (w : List AmountWarning)
    → (apply_daily_cap base t d def e w).0 ≡ (
        if or_zero t.daily_max_amount == 0
        then base
        else capped (or_zero t.daily_max_amount * total_days def e d) base)
unfolding apply_daily_cap
cap_number base t d def e w = ground arith

pub minimum_number :
    (least : ℕ) (x : ℕ × List AmountWarning) → (apply_minimum least x).0 ≡ raised least x.0
unfolding apply_minimum
minimum_number least (base, w) = ground arith

pub round-le : (n k : ℕ) → n ≤ k * 3600 → round_div n 3600 ≤ k
unfolding round_div
round-le n k h = ground arith

pub round_exact : (k : ℕ) → round_div (k * 3600) 3600 ≡ k
unfolding round_div
round_exact k = ground arith

pub round_mono : (n m : ℕ) → n ≤ m → round_div n 3600 ≤ round_div m 3600
unfolding round_div
round_mono n m h = ground arith

abbrev pub night_secs : Tariff → ℕ → Option ℕ → TariffPolicy → ℕ
night_secs t d e p = (night_part t p e (billable_seconds t d)).0

abbrev pub base_of : Tariff → ℕ → Option ℕ → TariffPolicy → ℕ
base_of t d e p = raw_base t p (night_secs t d e p) (billable_seconds t d - night_secs t d e p)

abbrev pub capped_base : Tariff → ℕ → Option ℕ → TariffPolicy → ℕ
capped_base t d e p =
    if or_zero t.daily_max_amount == 0
    then base_of t d e p
    else capped (or_zero t.daily_max_amount * total_days p.day_definition e d) (base_of t d e p)

pub amount_number :
    (t : Tariff) (d : ℕ) (e : Option ℕ) (p : TariffPolicy)
    → (calculate_amounts (some t) (some (pos d)) e p).final
      ≡ (if billable_seconds t d == 0 then 0 else raised p.min_charge_amount (capped_base t d e p))
unfolding calculate_amounts amount_for
amount_number t d e p = elim (Bool-cases (billable_seconds t d == 0)) [
  | inl free ↦ rw free
  | inr due ↦ rw (due, minimum_number, cap_number)
]

-- A tariff with a daily cap charges at most the cap for every day begun, or the minimum charge if
-- that is more.
pub final-le-cap :
    (t : Tariff) (d : ℕ) (e : Option ℕ) (p : TariffPolicy) {m : ℕ}
    → t.daily_max_amount ≡ some m
    → 0 < m
    → (calculate_amounts (some t) (some (pos d)) e p).final
      ≤ max (m * total_days p.day_definition e d) p.min_charge_amount
final-le-cap t d e p {m} h positive = rw (amount_number t d e p, h) (ground arith)

-- Up to the free time a stay costs nothing, whatever the policy, and draws no warning.
pub free_time :
    (t : Tariff) (d : ℕ) (e : Option ℕ) (p : TariffPolicy)
    → d ≤ t.free_minutes * 60
    → calculate_amounts (some t) (some (pos d)) e p
      ≡ record { base = 0; penalty = 0; discount = 0; final = 0; warnings = [] }
unfolding calculate_amounts amount_for billable_seconds
free_time t d e p h = ground arith

cost_scaled : (s c rate : ℕ) → s ≤ c * 3600 → s * rate ≤ c * rate * 3600
cost_scaled s c rate h = omega (arith, mul-le-mul_right rate h)

pub cost-minute-le : (s rate : ℕ) → cost minute s rate ≤ cost hour_up s rate
unfolding cost ceil_div
cost-minute-le s rate = cost_scaled s ((s + 3599) / 3600) rate (omega arith)

-- The caps and the minimum keep the order of the amounts.
pub capped_mono : (c c' b b' : ℕ) → c ≤ c' → b ≤ b' → capped c b ≤ capped c' b'
capped_mono c c' b b' h k = ground arith

pub raised_mono : (m b b' : ℕ) → b ≤ b' → raised m b ≤ raised m b'
raised_mono m b b' h = ground arith
