-- ===== src/Violations/Create.antt =====
-- `create_violation` of backend/app/modules/violations/router.py. `d` is what the endpoint reads and
-- `at` what its transaction finds, where another request may have been written in between.
use parking_system.Common.{
  ℕ, Bool, true, false, ◌&&◌, not, Option, none, some, List, [], ◌∷◌, ◌++◌, if◌then◌else◌, first,
  text_eq, is_some,
}
use parking_system.Python.{Python, Text}
use parking_system.Model.{Vehicle}
use parking_system.Store.{Violation, ViolationStatus, registered}
use parking_system.Plate.{normalize_plate}
use parking_system.Violations.{
  Desk, ViolationType, Reply, done, not_found, unprocessable, integrity_error,
}

pub record NewViolation : Type 0 where
  pub plate_raw : Text
  pub violation_type_code : Text
  pub client_ref : Option Text
  pub image_file_id : Option ℕ

pub record Created : Type 0 where
  pub id : ℕ
  pub status : ViolationStatus
  pub penalty_amount : ℕ
  pub image_file_id : Option ℕ
  pub duplicate : Bool
  pub concurrent_conflict : Bool

abbrev pub has_ref : Text → Violation → Bool
has_ref ref v = elim v.client_ref [ none ↦ false | some r ↦ text_eq r ref ]

-- The row of a reference, if the body has one that is not empty.
abbrev pub find_ref : Option Text → List Violation → Option Violation
find_ref none vs = none
find_ref (some []) vs = none
find_ref (some (c ∷ s)) vs = first (has_ref (c ∷ s)) vs

-- The unique constraint on `client_ref`, which holds for the empty text too.
abbrev pub ref_taken : Option Text → List Violation → Bool
ref_taken none vs = false
ref_taken (some ref) vs = is_some (first (has_ref ref) vs)

abbrev pub created : Violation → Bool → Bool → Created
created v duplicate concurrent = record {
  id = v.id;
  status = v.status;
  penalty_amount = v.penalty_amount;
  image_file_id = v.image_file_id;
  duplicate = duplicate;
  concurrent_conflict = concurrent;
}

abbrev pub vehicle_of : Option Text → List Vehicle → Option ℕ
vehicle_of none vehicles = none
vehicle_of (some plate) vehicles = elim (first (λ v. text_eq v.plate_normalized plate) vehicles) [
  | none ↦ none
  | some v ↦ some v.id
]

unfoldable pub new_violation : Option Text → NewViolation → ViolationType → ℕ → Desk → Violation
new_violation plate body vtype id d = record {
  id = id;
  vehicle_id = vehicle_of plate d.vehicles;
  plate_normalized = plate;
  penalty_amount = vtype.default_penalty_amount;
  status = registered;
  reviewed_by = none;
  reviewed_at = none;
  client_ref = body.client_ref;
  image_file_id = body.image_file_id;
}

-- The insertion, and `except IntegrityError`.
unfoldable pub insert_violation : Option Text → Violation → Desk → Reply Created
insert_violation ref v at =
    if ref_taken ref at.violations
    then elim (find_ref ref at.violations) [
      | none ↦ integrity_error
      | some w ↦ done (created w true true) at
    ]
    else done (created v false false) (record at { violations = at.violations ++ v ∷ [] })

abbrev pub lacks_image : ViolationType → NewViolation → Bool
lacks_image vtype body = vtype.requires_image && not (is_some body.image_file_id)

-- `create_violation` once the type is looked up, and once the reference is.
unfoldable pub create_typed :
    Option ViolationType → Python → Text → NewViolation → ℕ → Desk → Desk → Reply Created
unfolding insert_violation new_violation
create_typed none py mapping body id d at = not_found
create_typed (some vtype) py mapping body id d at =
    if lacks_image vtype body
    then unprocessable
    else insert_violation body.client_ref
        (new_violation (normalize_plate py mapping (some body.plate_raw) none) body vtype id d) at

unfoldable pub create_unseen :
    Option Violation → Python → Text → NewViolation → ℕ → Desk → Desk → Reply Created
unfolding create_typed
create_unseen (some v) py mapping body id d at = done (created v true false) at
create_unseen none py mapping body id d at =
    create_typed (first (λ t. text_eq t.code body.violation_type_code) d.types) py mapping body id d
      at

unfoldable pub create_violation : Python → Text → NewViolation → ℕ → (d at : Desk) → Reply Created
unfolding create_unseen
create_violation py mapping body id d at =
    create_unseen (find_ref body.client_ref d.violations) py mapping body id d at
