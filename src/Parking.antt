-- ===== src/Parking.antt =====
-- backend/app/modules/parking/router.py: spaces, their assignments to units and vehicles, and the
-- vacating of occupancies by hand. Who may call is not modelled.
pub mod YardSpaces
pub mod Tidy
pub mod Bulk
pub mod Handlers
pub mod Requests
use parking_system.Common.{
  ℕ, Bool, true, false, not, ◌&&◌, Option, none, some, List, [], ◌∷◌, ◌++◌, ◌==◌, ◌+◌, first, any,
  update, text_eq, is_some, if◌then◌else◌,
}
use parking_system.Common.Int.{ℤ, pos, negsuc, ◌-ℤ◌}
use parking_system.Python.{Text, codes}
use parking_system.Model.{
  ParkingSpace, ParkingAssignment, ParkingOccupancy, SpaceStatus, ParkingType, OccupancyStatus,
}
use parking_system.Store.{Db}
use parking_system.Settings.{Environment}
use parking_system.Capacity.{
  CapacityReason, yard_capacity_decision, get_declared_yard_capacity, count_confirmed_occupancy,
  count_yard_spaces,
}

-- How a request ends: with an answer and the tables, or with an exception, which changes nothing.
pub data Ended (A : Type 0) : Type 0 where
  done : A → Db → Ended A
  not_found conflict integrity_error : Ended A

abbrev pub is_space : ℕ → ParkingSpace → Bool
is_space id s = s.id == id

abbrev pub has_space_code : Text → ParkingSpace → Bool
has_space_code code s = text_eq s.code code

abbrev pub active_for : ℕ → ParkingAssignment → Bool
active_for space_id a = (a.parking_space_id == space_id) && a.is_active

abbrev pub type_of : Text → ParkingType
type_of t = if text_eq t (codes "YARD") then ParkingType.yard else ParkingType.other_type

-- The text that a request gives as a status.
unfoldable pub status_of_text : Text → SpaceStatus
status_of_text t =
    if text_eq t (codes "FREE")
    then SpaceStatus.free
    else if text_eq t (codes "OCCUPIED")
    then SpaceStatus.occupied
    else SpaceStatus.other_status t

-- ParkingSpaceCreate
pub record NewSpace : Type 0 where
  pub code : Text
  pub floor : ℤ
  pub zone : Option Text
  pub parking_type : Text

abbrev pub new_space : NewSpace → ℕ → ParkingSpace
new_space body id = record {
  id = id;
  code = body.code;
  floor = body.floor;
  zone = body.zone;
  parking_type = type_of body.parking_type;
  map_x = none;
  map_y = none;
  status = SpaceStatus.free;
  is_active = true;
}

-- The code of a space is unique.
unfoldable pub create_space : NewSpace → ℕ → Db → Ended ParkingSpace
create_space body id db =
    if is_some (first (has_space_code body.code) db.spaces)
    then integrity_error
    else done (new_space body id) (record db { spaces = db.spaces ++ new_space body id ∷ [] })

-- A field of ParkingSpaceUpdate, which a request may leave out or give as null.
pub data Patch (A : Type 0) : Type 0 where
  unset null : Patch A
  given : A → Patch A

pub record SpaceUpdate : Type 0 where
  pub status : Patch Text
  pub zone : Patch Text
  pub is_active : Patch Bool
  pub parking_type : Patch Text

-- Of a column that may be null, and of one that may not.
abbrev pub patched {ℓ} : {A : Type 0} {B : Type ℓ} → Patch A → (A → B) → B → B → B
patched unset f b none_value = b
patched null f b none_value = none_value
patched (given a) f b none_value = f a

abbrev pub is_null : {A : Type 0} → Patch A → Bool
is_null null = true
is_null _ = false

abbrev pub breaks_column : SpaceUpdate → Bool
breaks_column body =
    any (λ b. b) (is_null body.status ∷ is_null body.is_active ∷ is_null body.parking_type ∷ [])

abbrev pub patched_space : SpaceUpdate → ParkingSpace → ParkingSpace
patched_space body s = record s {
  status = patched body.status status_of_text s.status s.status;
  zone = patched body.zone (λ z. some z) s.zone none;
  is_active = patched body.is_active (λ b. b) s.is_active s.is_active;
  parking_type = patched body.parking_type type_of s.parking_type s.parking_type;
}

unfoldable pub update_space : ℕ → SpaceUpdate → Db → Ended ℕ
unfolding status_of_text
update_space id body db = elim (first (is_space id) db.spaces) [
  | none ↦ not_found
  | some s ↦
      if breaks_column body
      then integrity_error
      else done id (record db { spaces = update (is_space id) (patched_space body) db.spaces })
]

-- ParkingAssignmentCreate; the type of the assignment is left out.
pub record NewAssignment : Type 0 where
  pub parking_space_id : ℕ
  pub unit_id : Option ℕ
  pub vehicle_id : Option ℕ

abbrev pub new_assignment : NewAssignment → ℕ → ParkingAssignment
new_assignment body id = record {
  id = id;
  parking_space_id = body.parking_space_id;
  unit_id = body.unit_id;
  vehicle_id = body.vehicle_id;
  is_active = true;
}

-- Is what a request names, if anything, in its table?
abbrev pub is_there : {A : Type 0} → (ℕ → A → Bool) → Option ℕ → List A → Bool
is_there p none rows = true
is_there p (some id) rows = any (p id) rows

-- The checks that follow on the one that the space is there.
unfoldable pub assign : List ℕ → NewAssignment → ℕ → Db → ParkingSpace → Ended ℕ
assign units body id db space =
    if not space.is_active
    then conflict
    else if is_some (first (active_for body.parking_space_id) db.assignments)
    then conflict
    else if not (is_there (λ k v. v.id == k) body.vehicle_id db.vehicles)
    then not_found
    else if not (is_there (λ k u. u == k) body.unit_id units)
    then not_found
    else done id (record db { assignments = db.assignments ++ new_assignment body id ∷ [] })

-- `units` are the identifiers of the table of units.
unfoldable pub create_assignment : List ℕ → NewAssignment → ℕ → Db → Ended ℕ
unfolding assign
create_assignment units body id db = elim (first (is_space body.parking_space_id) db.spaces) [
  | none ↦ not_found
  | some space ↦ assign units body id db space
]

unfoldable pub close_assignment : ℕ → Db → Ended ℕ
close_assignment id db = elim (first (λ a. a.id == id) db.assignments) [
  | none ↦ not_found
  | some a ↦ done id (record db {
    assignments = update (λ a. a.id == id) (λ a. record a { is_active = false }) db.assignments;
  })
]

abbrev pub freed_space : Option ℕ → List ParkingSpace → List ParkingSpace
freed_space none spaces = spaces
freed_space (some id) spaces =
    update (is_space id) (λ s. record s { status = SpaceStatus.free }) spaces

unfoldable pub vacate : ℕ → ℕ → Db → Ended ℕ
vacate id now db = elim (first (λ o. o.id == id) db.occupancies) [
  | none ↦ not_found
  | some o ↦ done id (record db {
    occupancies =
        update (λ p. p.id == id)
          (λ p. record p { status = OccupancyStatus.vacated; vacated_at = some now })
          db.occupancies;
    spaces = freed_space o.parking_space_id db.spaces;
  })
]

-- A point of `save_map_coordinates`.
pub record Point : Type 0 where
  pub space_id : ℕ
  pub x : ℤ
  pub y : ℤ

-- The loop over the points: how many spaces were found, and the spaces.
unfoldable pub save_points : List Point → List ParkingSpace → ℕ × List ParkingSpace
save_points [] spaces = (0, spaces)
save_points (p ∷ ps) spaces =
    let placed =
      update (is_space p.space_id) (λ s. record s { map_x = some p.x; map_y = some p.y }) spaces in
    let (n, rest) = save_points ps placed in
    ((if is_some (first (is_space p.space_id) spaces) then 1 else 0) + n, rest)

unfoldable pub save_map_coordinates : List Point → Db → Ended ℕ
unfolding save_points
save_map_coordinates points db =
    let (n, spaces) = save_points points db.spaces in done n (record db { spaces = spaces })

-- The answer of `capacity_status`; the source of the declared capacity is left out.
pub record CapacityStatus : Type 0 where
  pub declared : Option ℤ
  pub registered_yard_count : ℕ
  pub confirmed_presence : ℕ
  pub available : Option ℤ
  pub accepting : Bool
  pub reason : CapacityReason

abbrev pub is_positive : ℤ → Bool
is_positive (pos n) = not (n == 0)
is_positive (negsuc n) = false

-- `declared - confirmed` where the declared capacity is positive.
unfoldable pub available_of : Option ℤ → ℕ → Option ℤ
available_of none confirmed = none
available_of (some z) confirmed = if is_positive z then some (z -ℤ pos confirmed) else none

unfoldable pub capacity_status : Environment → Db → CapacityStatus
unfolding available_of
capacity_status env db =
    let declared = get_declared_yard_capacity env db.app_settings in
    let confirmed = count_confirmed_occupancy db.occupancies in
    let verdict = yard_capacity_decision declared confirmed in
    record {
      declared = declared;
      registered_yard_count = count_yard_spaces db.spaces;
      confirmed_presence = confirmed;
      available = available_of declared confirmed;
      accepting = verdict.0;
      reason = verdict.1;
    }
