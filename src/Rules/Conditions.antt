-- ===== src/Rules/Conditions.antt =====
-- The conditions of rules: `_match_condition` of backend/app/rules_engine.py, on the facts of `ctx`.
use parking_system.Common.{
  ℕ, ◌*◌, Bool, true, false, not, ◌&&◌, ◌||◌, Option, none, some, List, [], ◌∷◌, ltb, leb, ◌==◌,
  if◌then◌else◌, any, text_eq, or_else,
}
use parking_system.Common.Int.{ℤ, pos, ltb_ℤ}
use parking_system.Python.{Text, codes}

-- A value of the context, or of a condition: JSON, with the lists that `in` takes and the two
-- times of a window as `strptime` reads them (in minutes; `none` is a text that it refuses). `other`
-- is a value that no operation takes, such as a fraction.
pub data Scalar : Type 0 where
  null : Scalar
  flag : Bool → Scalar
  num : ℤ → Scalar
  text : Text → Scalar

pub data Target : Type 0 where
  scalar : Scalar → Target
  items : List Scalar → Target
  window : Option ℕ → Option ℕ → Target
  other : Target

pub data Field : Type 0 where
  membership_kind is_resident has_valid_permit yard_full covered_free_count : Field
  has_open_session has_debt confirmed_violations_count driver_request time_window : Field
  gate_code plate_in unknown_field : Field

pub data Op : Type 0 where
  is_true is_false eq ne is_in not_in gte lte in_window unknown_op : Op

pub record Condition : Type 0 where
  pub field : Field
  pub op : Op
  pub value : Target

-- The dict `ctx`, as far as conditions read it.
pub record Context : Type 0 where
  pub membership_kind : Option Text
  pub is_resident : Bool
  pub has_valid_permit : Bool
  pub yard_full : Bool
  pub covered_free_count : ℕ
  pub has_open_session : Bool
  pub has_debt : Bool
  pub confirmed_violations_count : ℕ
  pub driver_request : Option Text
  pub gate_code : Text
  pub plate_normalized : Option Text
  pub time_of_day : ℕ

abbrev pub text_or_null : Option Text → Scalar
text_or_null none = null
text_or_null (some t) = text t

-- `ctx[field]`; `none` is a field that is not in CONDITION_FIELDS.
unfoldable pub field_value : Context → Field → Option Scalar
field_value ctx membership_kind = some (text_or_null ctx.membership_kind)
field_value ctx is_resident = some (flag ctx.is_resident)
field_value ctx has_valid_permit = some (flag ctx.has_valid_permit)
field_value ctx yard_full = some (flag ctx.yard_full)
field_value ctx covered_free_count = some (num (pos ctx.covered_free_count))
field_value ctx has_open_session = some (flag ctx.has_open_session)
field_value ctx has_debt = some (flag ctx.has_debt)
field_value ctx confirmed_violations_count = some (num (pos ctx.confirmed_violations_count))
field_value ctx driver_request = some (text_or_null ctx.driver_request)
field_value ctx time_window = some (flag true)
field_value ctx gate_code = some (text ctx.gate_code)
field_value ctx plate_in = some (text_or_null ctx.plate_normalized)
field_value ctx unknown_field = none

abbrev pub is_zero : ℤ → Bool
is_zero (pos n) = n == 0
is_zero _ = false

unfoldable pub truthy : Scalar → Bool
truthy null = false
truthy (flag b) = b
truthy (num n) = not (is_zero n)
truthy (text []) = false
truthy (text (_ ∷ _)) = true

-- A number, where Python's True and False count as 1 and 0.
abbrev pub as_number : Scalar → Option ℤ
as_number (num n) = some n
as_number (flag b) = some (if b then pos 1 else pos 0)
as_number _ = none

abbrev pub eq_number : Option ℤ → Option ℤ → Bool
eq_number (some a) (some b) = not (ltb_ℤ a b) && not (ltb_ℤ b a)
eq_number _ _ = false

-- `==`
unfoldable pub scalar_eq : Scalar → Scalar → Bool
scalar_eq null null = true
scalar_eq (text s) (text t) = text_eq s t
scalar_eq a b = eq_number (as_number a) (as_number b)

-- `<=` on texts
unfoldable pub text_le : Text → Text → Bool
text_le [] t = true
text_le (c ∷ s) [] = false
text_le (c ∷ s) (d ∷ t) = ltb c d || (c == d) && text_le s t

-- `a <= b`; on values that have no order Python raises, and the condition is false.
unfoldable pub scalar_le : Scalar → Scalar → Bool
unfolding text_le
scalar_le (text s) (text t) = text_le s t
scalar_le a b = elim (as_number a) [
  | none ↦ false
  | some m ↦ elim (as_number b) [ none ↦ false | some n ↦ not (ltb_ℤ n m) ]
]

abbrev pub target_eq : Scalar → Target → Bool
target_eq v (scalar s) = scalar_eq v s
target_eq v _ = false

unfoldable pub starts_text : Text → Text → Bool
starts_text [] t = true
starts_text (c ∷ s) [] = false
starts_text (c ∷ s) (d ∷ t) = (c == d) && starts_text s t

-- `s in t` for texts
unfoldable pub within_text : Text → Text → Bool
unfolding starts_text
within_text s [] = starts_text s []
within_text s (d ∷ t) = starts_text s (d ∷ t) || within_text s t

-- `val in (target or [])`; `none` is an exception. A window is a dict with the keys from and to.
unfoldable pub target_has : Scalar → Target → Option Bool
unfolding truthy scalar_eq within_text
target_has v (items xs) = some (any (scalar_eq v) xs)
target_has v (window _ _) =
    some (scalar_eq v (text (codes "from")) || scalar_eq v (text (codes "to")))
target_has (text s) (scalar (text (d ∷ t))) = some (within_text s (d ∷ t))
target_has v (scalar s) = if truthy s then none else some false
target_has v other = none

abbrev pub minute : ℕ
minute = 60000000

abbrev pub clock_in : Option ℕ → Option ℕ → ℕ → Bool
clock_in (some f_t) (some t_t) cur =
    if leb f_t t_t
    then leb (f_t * minute) cur && leb cur (t_t * minute)
    else leb (f_t * minute) cur || leb cur (t_t * minute)
clock_in _ _ cur = false

abbrev pub window_has : Target → ℕ → Bool
window_has (window f t) cur = clock_in f t cur
window_has _ cur = false

abbrev pub scalar_of : Target → Scalar
scalar_of (scalar s) = s
scalar_of _ = null

unfoldable pub match_op : Op → Scalar → Target → ℕ → Bool
unfolding truthy scalar_eq scalar_le target_has
match_op is_true v t cur = truthy v
match_op is_false v t cur = not (truthy v)
match_op eq v t cur = target_eq v t
match_op ne v t cur = not (target_eq v t)
match_op is_in v t cur = or_else (target_has v t) false
match_op not_in v t cur = not (or_else (target_has v t) true)
match_op gte v t cur = scalar_le (scalar_of t) v
match_op lte v t cur = scalar_le v (scalar_of t)
match_op in_window v t cur = window_has t cur
match_op unknown_op v t cur = false

-- `_match_condition`
unfoldable pub match_condition : Context → Condition → Bool
match_condition ctx cond = elim (field_value ctx cond.field) [
  | none ↦ false
  | some v ↦ match_op cond.op v cond.value ctx.time_of_day
]
