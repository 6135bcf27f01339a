-- ===== src/Vehicles.antt =====
-- backend/app/modules/vehicles/service.py: permits and restrictions.
pub mod Permits
use parking_system.Common.{
  ℕ, ◌*◌, ◌+◌, ◌/◌, ◌%◌, Bool, true, false, not, ◌&&◌, ◌||◌, Option, none, some, List, [], ◌∷◌, ltb,
  leb, ◌==◌, if◌then◌else◌, select, first, sort_desc, any, text_eq,
}
use parking_system.Common.Int.{ℤ, pos}
use parking_system.Python.{Python, Text}
use parking_system.Model.{Vehicle, AccessPermit, VehicleRestriction, ActiveStatus, Decoded, decoded}
use parking_system.Finance.Night.{day}

pub data PermitReason : Type 0 where
  ok permit_not_started permit_expired permit_day_not_allowed permit_time_not_allowed : PermitReason
  permit_max_entries_reached permit_invalid_now permit_not_found : PermitReason

-- `str(value).split(":")`
unfoldable pub split_colon : Text → Text × List Text
split_colon [] = ([], [])
split_colon (c ∷ s) =
    let (part, parts) = split_colon s in if c == b':' then ([], part ∷ parts) else (c ∷ part, parts)

-- `time(hours, minutes)`, in minutes; out of range it raises.
unfoldable pub clock_time : Option ℤ → Option ℤ → Option ℕ
clock_time (some (pos hours)) (some (pos minutes)) =
    if ltb hours 24 && ltb minutes 60 then some (hours * 60 + minutes) else none
clock_time _ _ = none

-- `_parse_hhmm`; `parts[1]` is missing if there is no colon.
unfoldable pub parse_hhmm : Python → Option Text → Option ℕ
unfolding split_colon clock_time
parse_hhmm py none = none
parse_hhmm py (some value) =
    let (hours, parts) = split_colon value in
    elim parts [ [] ↦ none | minutes ∷ _ ↦ clock_time (py.parse_int hours) (py.parse_int minutes) ]

abbrev pub minute : ℕ
minute = 60000000

-- `now.weekday()`: 0001-01-01 was a Monday.
unfoldable pub weekday : ℕ → ℕ
weekday now = now / day % 7

-- `from_t <= cur <= to_t`, over midnight if `from_t` is behind `to_t`; the bounds are in minutes.
unfoldable pub in_window : ℕ → ℕ → ℕ → Bool
in_window from_t to_t cur =
    if leb from_t to_t
    then leb (from_t * minute) cur && leb cur (to_t * minute)
    else leb (from_t * minute) cur || leb cur (to_t * minute)

unfoldable pub day_allowed : Decoded (List ℕ) → ℕ → Bool
day_allowed (decoded days) d = any (λ x. x == d) days
day_allowed _ d = true

unfoldable pub time_allowed : Option ℕ → Option ℕ → ℕ → Bool
time_allowed (some from_t) (some to_t) cur = in_window from_t to_t cur
time_allowed _ _ cur = true

abbrev pub starts_later : Option ℕ → ℕ → Bool
starts_later none now = false
starts_later (some from) now = ltb now from

abbrev pub is_over : Option ℕ → ℕ → Bool
is_over none now = false
is_over (some until) now = ltb until now

unfoldable pub permit_time_valid : Python → AccessPermit → ℕ → Bool × PermitReason
permit_time_valid py permit now =
    if starts_later permit.valid_from now
    then (false, permit_not_started)
    else if is_over permit.valid_until now
    then (false, permit_expired)
    else if not (day_allowed permit.allowed_days (weekday now))
    then (false, permit_day_not_allowed)
    else if not (
        time_allowed (parse_hhmm py permit.allowed_from_time)
          (parse_hhmm py permit.allowed_until_time) (now % day))
    then (false, permit_time_not_allowed)
    else (true, ok)

-- The column holds JSON text, so the text of an empty list allows no gate.
unfoldable pub permit_gate_allowed : AccessPermit → Option ℕ → Bool
permit_gate_allowed permit none = true
permit_gate_allowed permit (some gate_id) = elim permit.allowed_gate_ids [
  | decoded ids ↦ any (λ x. x == gate_id) ids
  | _ ↦ true
]

unfoldable pub permit_entries_available : AccessPermit → Bool × PermitReason
permit_entries_available permit = elim permit.max_entries [
  | none ↦ (true, ok)
  | some max_entries ↦
      if leb max_entries permit.used_entries
      then (false, permit_max_entries_reached)
      else (true, ok)
]

abbrev pub is_active : ActiveStatus → Bool
is_active ActiveStatus.active = true
is_active ActiveStatus.inactive = false

-- The body of the loop of `find_active_permit`.
unfoldable pub is_usable : Python → Option ℕ → ℕ → AccessPermit → Bool
is_usable py gate_id now permit =
    (permit_time_valid py permit now).0
    && permit_gate_allowed permit gate_id
    && (permit_entries_available permit).0

-- The query of `find_active_permit`, newest first.
unfoldable pub active_permits : List AccessPermit → Text → List AccessPermit
active_permits permits plate =
    sort_desc (λ p. p.created_at)
      (select (λ p. text_eq p.plate_normalized plate && is_active p.status) permits)

abbrev pub nothing_usable : List AccessPermit → PermitReason
nothing_usable [] = permit_not_found
nothing_usable (_ ∷ _) = permit_invalid_now

-- The end of the loop.
abbrev pub chosen : Option AccessPermit → List AccessPermit → Option AccessPermit × PermitReason
chosen (some permit) permits = (some permit, ok)
chosen none permits = (none, nothing_usable permits)

unfoldable pub find_active_permit :
    Python → List AccessPermit → Text → Option ℕ → ℕ → Option AccessPermit × PermitReason
find_active_permit py table plate gate_id now =
    let permits = active_permits table plate in
    chosen (first (is_usable py gate_id now) permits) permits

-- The oldest vehicle of the plate: ORDER BY created_at ASC LIMIT 1.
unfoldable pub oldest : List Vehicle → Option Vehicle
oldest [] = none
oldest (v ∷ vs) = elim (oldest vs) [
  | none ↦ some v
  | some w ↦ if ltb w.created_at v.created_at then some w else some v
]

-- `get_by_plate` of a plate that is normalized.
unfoldable pub get_by_plate : List Vehicle → Option Text → Option Vehicle
get_by_plate vehicles none = none
get_by_plate vehicles (some plate) =
    oldest (select (λ v. text_eq v.plate_normalized plate) vehicles)

abbrev pub restricts : Text → ℕ → VehicleRestriction → Bool
restricts plate now r =
    text_eq r.plate_normalized plate
    && is_active r.status
    && not (starts_later r.starts_at now)
    && not (is_over r.ends_at now)

unfoldable pub has_active_restriction :
    List VehicleRestriction → Text → ℕ → Option VehicleRestriction
has_active_restriction restrictions plate now = first (restricts plate now) restrictions
