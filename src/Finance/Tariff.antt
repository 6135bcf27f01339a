-- ===== src/Finance/Tariff.antt =====
-- calculate_amounts and its helpers, and the choice of the tariff in force
-- (backend/app/modules/finance/service.py). A cost is an exact fraction over 3600, where the
-- source has a float; `int(round(…))` rounds a half to the even neighbour.
pub mod Activation
pub mod Bounds
pub mod Order
use parking_system.Common.{
  ℕ, ◌+◌, ◌-◌, ◌*◌, ◌/◌, ◌%◌, max, Bool, true, false, ◌&&◌, not, Option, none, some, List, [], ◌∷◌,
  ◌++◌, ltb, leb, ◌==◌, if◌then◌else◌, select, sort_desc, first, map,
}
use parking_system.Common.Int.{ℤ, pos, negsuc, clip}
use parking_system.Model.{Tariff, TariffStatus}
use parking_system.Finance.Night.{second, day, night_overlap_seconds}

pub data Rounding : Type 0 where
  hour_up minute : Rounding

pub data DayDefinition : Type 0 where
  hours_24 calendar : DayDefinition

pub data AmountWarning : Type 0 where
  no_active_tariff night_skipped_no_entry_time night_tariff_applied : AmountWarning
  day_definition_fallback_24h daily_cap_applied min_amount_applied : AmountWarning

-- The keyword arguments of `calculate_amounts`.
pub record TariffPolicy : Type 0 where
  pub rounding : Rounding
  pub day_definition : DayDefinition
  pub night_enabled : Bool
  pub night_start_hour : ℕ
  pub night_end_hour : ℕ
  pub min_charge_amount : ℕ

-- The dict that `calculate_amounts` returns.
pub record Amounts : Type 0 where
  pub base : ℕ
  pub penalty : ℕ
  pub discount : ℕ
  pub final : ℕ
  pub warnings : List AmountWarning

-- `x or 0`
abbrev pub or_zero : Option ℕ → ℕ
or_zero none = 0
or_zero (some n) = n

unfoldable pub ceil_div : ℕ → ℕ → ℕ
ceil_div a b = (a + (b - 1)) / b

-- `int(round(n / d))`
unfoldable pub round_div : ℕ → ℕ → ℕ
round_div n d =
    let q = n / d in
    let r = n % d in
    if ltb (2 * r) d then q else if ltb d (2 * r) then q + 1 else if q % 2 == 0 then q else q + 1

-- `_cost`, in fractions over 3600
unfoldable pub cost : Rounding → ℕ → ℕ → ℕ
unfolding ceil_div
cost minute seconds rate = seconds * rate
cost hour_up seconds rate = ceil_div seconds 3600 * rate * 3600

-- The number of days whose caps add up; `entry_at` is the local wall clock.
unfoldable pub total_days : DayDefinition → Option ℕ → ℕ → ℕ
unfolding ceil_div
total_days calendar (some entry_at) duration_seconds =
    max 1 ((entry_at + duration_seconds * second) / day - entry_at / day + 1)
total_days _ _ duration_seconds = max 1 (ceil_div duration_seconds 86400)

unfoldable pub day_warnings : DayDefinition → Option ℕ → List AmountWarning
day_warnings calendar none = day_definition_fallback_24h ∷ []
day_warnings _ _ = []

unfoldable pub apply_daily_cap :
    ℕ → Tariff → ℕ → DayDefinition → Option ℕ → List AmountWarning → ℕ × List AmountWarning
unfolding total_days day_warnings
apply_daily_cap base tariff duration_seconds day_definition entry_at warnings =
    let daily = or_zero tariff.daily_max_amount in
    let cap = daily * total_days day_definition entry_at duration_seconds in
    let warned = warnings ++ day_warnings day_definition entry_at in
    if daily == 0
    then (base, warnings)
    else if ltb cap base
    then (cap, warned ++ daily_cap_applied ∷ [])
    else (base, warned)

unfoldable pub night_part : Tariff → TariffPolicy → Option ℕ → ℕ → ℕ × List AmountWarning
unfolding night_overlap_seconds
night_part tariff policy entry_at billable =
    if policy.night_enabled && ltb 0 (or_zero tariff.night_amount)
    then elim entry_at [
      | some start ↦
          (night_overlap_seconds start billable policy.night_start_hour policy.night_end_hour, [])
      | none ↦ (0, night_skipped_no_entry_time ∷ [])
    ]
    else (0, [])

-- The two costs together, in fractions over 3600.
unfoldable pub exact_cost : Tariff → TariffPolicy → ℕ → ℕ → ℕ
exact_cost tariff policy night_secs day_secs =
    (if ltb 0 night_secs then cost policy.rounding night_secs (or_zero tariff.night_amount) else 0)
    + cost policy.rounding day_secs tariff.hourly_amount

-- The amount before the cap and the minimum.
unfoldable pub raw_base : Tariff → TariffPolicy → ℕ → ℕ → ℕ
raw_base tariff policy night_secs day_secs =
    round_div (exact_cost tariff policy night_secs day_secs) 3600

unfoldable pub apply_minimum : ℕ → ℕ × List AmountWarning → ℕ × List AmountWarning
apply_minimum min_charge_amount (base, warnings) =
    if ltb 0 min_charge_amount && ltb 0 base && ltb base min_charge_amount
    then (min_charge_amount, warnings ++ min_amount_applied ∷ [])
    else (base, warnings)

abbrev pub amounts_of : ℕ × List AmountWarning → Amounts
amounts_of (base, warnings) = record {
  base = base;
  penalty = 0;
  discount = 0;
  final = base;
  warnings = warnings;
}

unfoldable pub billable_seconds : Tariff → ℕ → ℕ
billable_seconds tariff duration = duration - tariff.free_minutes * 60

unfoldable pub amount_for : Tariff → ℕ → Option ℕ → TariffPolicy → ℕ × List AmountWarning
amount_for tariff duration entry_at policy =
    let billable = billable_seconds tariff duration in
    let (night_secs, warnings) = night_part tariff policy entry_at billable in
    let warned = if ltb 0 night_secs then warnings ++ night_tariff_applied ∷ [] else warnings in
    if billable == 0
    then (0, [])
    else apply_minimum policy.min_charge_amount (
        apply_daily_cap (raw_base tariff policy night_secs (billable - night_secs)) tariff duration
          policy.day_definition entry_at warned)

-- `duration_seconds` may be None or negative.
abbrev pub duration_of : Option ℤ → ℕ
duration_of none = 0
duration_of (some d) = clip d

unfoldable pub calculate_amounts : Option Tariff → Option ℤ → Option ℕ → TariffPolicy → Amounts
calculate_amounts none duration_seconds entry_at policy = amounts_of (0, no_active_tariff ∷ [])
calculate_amounts (some tariff) duration_seconds entry_at policy =
    amounts_of (amount_for tariff (duration_of duration_seconds) entry_at policy)

-- The default keyword arguments.
abbrev pub default_policy : TariffPolicy
default_policy = record {
  rounding = hour_up;
  day_definition = hours_24;
  night_enabled = false;
  night_start_hour = 22;
  night_end_hour = 6;
  min_charge_amount = 0;
}

-- `initial_tariff_status`
unfoldable pub initial_tariff_status : Bool → TariffStatus
initial_tariff_status require_approval =
    if require_approval then TariffStatus.draft else TariffStatus.active

abbrev pub is_active : TariffStatus → Bool
is_active TariffStatus.active = true
is_active _ = false

-- The tests of `valid_from` and `valid_until` in `get_active_tariff`.
unfoldable pub in_force : ℕ → Tariff → Bool
in_force now t =
    not (elim t.valid_from [ none ↦ false | some from ↦ ltb now from ])
    && not (elim t.valid_until [ none ↦ false | some until ↦ ltb until now ])

-- ORDER BY priority DESC, created_at DESC, by two stable sorts.
unfoldable pub get_active_tariff : ℕ → List Tariff → Option Tariff
unfolding in_force
get_active_tariff now tariffs = first (in_force now) (
    sort_desc (λ t. t.priority)
      (sort_desc (λ t. t.created_at) (select (λ t. is_active t.status) tariffs)))

-- The two assignments of `activate_tariff` to one row: every other active tariff is put out of
-- force, and the chosen one comes into force last, also if it was active before.
unfoldable pub activate_row : ℕ → Option ℕ → ℕ → Tariff → Tariff
activate_row now user tariff_id t =
    if t.id == tariff_id
    then record t { status = TariffStatus.active; approved_by = user; approved_at = some now }
    else if is_active t.status
    then record t { status = TariffStatus.inactive }
    else t

-- `activate_tariff` of backend/app/modules/finance/router.py on the tariffs' table; `none` is
-- NotFoundError.
unfoldable pub activate_tariff : ℕ → Option ℕ → ℕ → List Tariff → Option (List Tariff)
unfolding activate_row
activate_tariff now user tariff_id tariffs = elim (first (λ t. t.id == tariff_id) tariffs) [
  | none ↦ none
  | some _ ↦ some (map (activate_row now user tariff_id) tariffs)
]
