-- ===== src/Settings.antt =====
-- backend/app/core/runtime_settings.py: a policy is read from its group in `app_settings`, then
-- from the environment's settings, then from the default.
pub mod Policies
use parking_system.Common.{
  ℕ, min, Bool, true, false, Option, none, some, List, [], ◌∷◌, ◌==◌, if◌then◌else◌, any, text_eq,
  or_else,
}
use parking_system.Common.Int.{ℤ, pos, negsuc, clip}
use parking_system.Python.{Python, Text, codes, strip, upper_all}
use parking_system.Finance.Tariff.{
  Rounding, hour_up, minute, DayDefinition, hours_24, calendar, TariffPolicy,
}
use parking_system.Finance.Charges.{ApprovalPolicy, warn, block, VoidedMode, separate, exclude}

-- A value in the JSON of a group. Of a float it keeps what `int` makes of it, and whether it is zero;
-- `other` stands for a list or an object.
pub data Value : Type 0 where
  null other : Value
  num : ℤ → Value
  float : ℤ → Bool → Value
  flag : Bool → Value
  text : Text → Value

-- A row of `app_settings`; its value is an object, or something else.
pub record AppSetting : Type 0 where
  pub key : Text
  pub value : Option (List (Text × Value))

unfoldable pub lookup_row : Text → List AppSetting → Option (List (Text × Value))
lookup_row key [] = none
lookup_row key (row ∷ rows) = if text_eq row.key key then row.value else lookup_row key rows

-- `value[key]` if the key is there and its value is not null
unfoldable pub lookup_value : Text → List (Text × Value) → Option Value
lookup_value key [] = none
lookup_value key ((k, v) ∷ rest) =
    if text_eq k key then elim v [ null ↦ none | w ↦ some w ] else lookup_value key rest

-- The first of the keys that has a value.
unfoldable pub first_value : List Text → List (Text × Value) → Option Value
first_value [] object = none
first_value (key ∷ keys) object = elim (lookup_value key object) [
  | some v ↦ some v
  | none ↦ first_value keys object
]

-- `get_policy_setting`: the stored value if the cast accepts it, else the environment's value, else
-- the default.
unfoldable pub get_policy_setting {ℓ} :
    {A : Type ℓ} → List AppSetting → Text → List Text → (Value → Option A) → Option A → A → A
get_policy_setting rows group keys cast env_value default =
    or_else
      (elim (lookup_row group rows) [
        | none ↦ none
        | some object ↦ elim (first_value keys object) [ none ↦ none | some raw ↦ cast raw ]
      ])
      (or_else env_value default)

-- `int`
unfoldable pub cast_int : Python → Value → Option ℤ
cast_int py (num n) = some n
cast_int py (float n is_zero) = some n
cast_int py (flag b) = some (if b then pos 1 else pos 0)
cast_int py (text t) = py.parse_int t
cast_int py _ = none

-- `_to_bool`; the last word is the Persian `bale`.
unfoldable pub to_bool : Python → Value → Option Bool
to_bool py (text t) = some (
    any (text_eq (py.lower (strip py t)))
      (codes "1" ∷ codes "true" ∷ codes "yes" ∷ codes "on" ∷ (0x628 ∷ 0x644 ∷ 0x647 ∷ []) ∷ []))
to_bool py (flag b) = some b
to_bool py (num (pos n)) = some (if n == 0 then false else true)
to_bool py (num (negsuc n)) = some true
to_bool py (float n is_zero) = some (if is_zero then false else true)
to_bool py null = some false
to_bool py other = some true

-- No cast.
abbrev pub as_is : Value → Option Value
as_is v = some v

-- A text setting that must be one of two words, else the first.
unfoldable pub rounding_of : Value → Rounding
rounding_of (text t) = if text_eq t (codes "MINUTE") then minute else hour_up
rounding_of _ = hour_up

unfoldable pub day_definition_of : Value → DayDefinition
day_definition_of (text t) = if text_eq t (codes "CALENDAR") then calendar else hours_24
day_definition_of _ = hours_24

-- `int(n or d)`: a stored 0 is false, and gives way to the default.
unfoldable pub or_default : ℤ → ℤ → ℤ
or_default (pos n) d = if n == 0 then d else pos n
or_default (negsuc n) d = negsuc n

-- `max(0, min(23, n))`
unfoldable pub clamp_hour : ℤ → ℕ
clamp_hour n = min 23 (clip n)

pub data ExitPolicy : Type 0 where
  allow_exit warn_exit deny_exit : ExitPolicy

-- The settings that the environment gives (`Settings` of core/config.py), which all have defaults.
pub record Environment : Type 0 where
  pub exit_unpaid_policy : Value
  pub tariff_rounding : Value
  pub tariff_day_definition : Value
  pub night_tariff_enabled : Bool
  pub night_start_hour : ℤ
  pub night_end_hour : ℤ
  pub min_charge_amount : ℤ
  pub exit_grace_minutes : ℤ
  pub self_approval_policy : Value
  pub voided_report_mode : Value
  pub yard_capacity_total : Option ℤ

-- `(str(policy) or "WARN").upper()`; what is no text is none of the words.
unfoldable pub policy_word : Python → Value → Text
policy_word py (text t) = upper_all py t
policy_word py _ = []

unfoldable pub resolve_exit_policy : Python → Environment → List AppSetting → ExitPolicy
resolve_exit_policy py env rows =
    let policy = policy_word py (
      get_policy_setting rows (codes "gate_policy") (codes "EXIT_UNPAID_POLICY" ∷ []) as_is
        (some env.exit_unpaid_policy) (text (codes "WARN"))) in
    if text_eq policy (codes "ALLOW")
    then allow_exit
    else if text_eq policy (codes "DENY")
    then deny_exit
    else warn_exit

module _ (py : Python) (env : Environment) (rows : List AppSetting) where
  -- A setting of the group `tariff_policy` that is a number.
  unfoldable pub tariff_int : List Text → ℤ → ℤ
  tariff_int keys env_value =
      get_policy_setting rows (codes "tariff_policy") keys (cast_int py) (some env_value) env_value

  unfoldable pub tariff_value : List Text → Value → Value
  tariff_value keys env_value =
      get_policy_setting rows (codes "tariff_policy") keys as_is (some env_value) env_value

  unfoldable pub night_enabled : Bool
  night_enabled =
      get_policy_setting rows (codes "tariff_policy")
        (codes "NIGHT_TARIFF_ENABLED" ∷ codes "night_enabled" ∷ []) (to_bool py)
        (some env.night_tariff_enabled) false

  unfoldable pub resolve_tariff_policy : TariffPolicy
  resolve_tariff_policy = record {
    rounding =
        rounding_of
          (tariff_value (codes "TARIFF_ROUNDING" ∷ codes "rounding" ∷ []) env.tariff_rounding);
    day_definition = day_definition_of (
        tariff_value (codes "TARIFF_DAY_DEFINITION" ∷ codes "day_definition" ∷ [])
          env.tariff_day_definition);
    night_enabled = night_enabled;
    night_start_hour = clamp_hour (
        or_default
          (tariff_int (codes "NIGHT_START_HOUR" ∷ codes "night_start_hour" ∷ [])
            env.night_start_hour)
          (pos 22));
    night_end_hour = clamp_hour (
        or_default
          (tariff_int (codes "NIGHT_END_HOUR" ∷ codes "night_end_hour" ∷ []) env.night_end_hour)
          (pos 6));
    min_charge_amount = clip (
        tariff_int (codes "MIN_CHARGE_AMOUNT" ∷ codes "min_charge_amount" ∷ [])
          env.min_charge_amount);
  }

  -- `exit_grace_minutes`
  unfoldable pub resolve_grace : ℕ
  resolve_grace = clip (
      tariff_int (codes "EXIT_GRACE_MINUTES" ∷ codes "exit_grace_minutes" ∷ [])
        env.exit_grace_minutes)

  unfoldable pub resolve_self_approval_policy : ApprovalPolicy
  resolve_self_approval_policy =
      if text_eq
        (policy_word py (
          get_policy_setting rows (codes "finance_policy") (codes "SELF_APPROVAL_POLICY" ∷ []) as_is
            (some env.self_approval_policy) (text (codes "WARN"))))
        (codes "BLOCK")
      then block
      else warn

  unfoldable pub resolve_voided_report_mode : VoidedMode
  resolve_voided_report_mode =
      if text_eq
        (policy_word py (
          get_policy_setting rows (codes "report_policy") (codes "VOIDED_REPORT_MODE" ∷ []) as_is
            (some env.voided_report_mode) (text (codes "SEPARATE"))))
        (codes "EXCLUDE")
      then exclude
      else separate
