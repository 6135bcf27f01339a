-- ===== src/VehicleSync/Cells.antt =====
-- The rows of the sheet in backend/app/modules/vehicle_sync/service.py: `rows_to_records`,
-- `validate_row` and `parse_bool`. The sheet is read unformatted, so a cell may hold a number or a
-- Boolean; methods of texts raise on these.
use parking_system.Common.{
  ℕ, zero, suc, ◌+◌, Bool, true, false, Option, none, some, List, [], ◌∷◌, ◌++◌, if◌then◌else◌,
  text_eq, any, or_else, is_some,
}
use parking_system.Python.{Python, Text, codes, strip}
use parking_system.Plate.{normalize_plate}
use parking_system.VehicleSync.Dates.{DateResult, bad_date, raises, parse_any_date}

-- `value` has its truth, and its text under `str`.
pub data Cell : Type 0 where
  words : Text → Cell
  value : Bool → Text → Cell

-- A row as a dict.
abbrev pub Rec : Type 0
Rec = List (Text × Cell)

abbrev pub sheet_columns : List Text
sheet_columns =
    codes "external_vehicle_id"
    ∷ codes "source_system"
    ∷ codes "plate_raw"
    ∷ codes "plate_normalized"
    ∷ codes "owner_full_name"
    ∷ codes "owner_mobile"
    ∷ codes "unit_number"
    ∷ codes "tower_code"
    ∷ codes "brand"
    ∷ codes "model"
    ∷ codes "color"
    ∷ codes "year"
    ∷ codes "vehicle_type"
    ∷ codes "plate_type"
    ∷ codes "permit_type"
    ∷ codes "permit_valid_from"
    ∷ codes "permit_valid_until"
    ∷ codes "is_active"
    ∷ codes "notes"
    ∷ codes "external_updated_at"
    ∷ []

-- `rec.get`
unfoldable pub get : Text → Rec → Option Cell
get k [] = none
get k ((j, c) ∷ r) = if text_eq j k then some c else get k r

-- The dict `hmap`: of equal headers the last; an empty header is left out.
unfoldable pub header_index : Python → Text → ℕ → List Text → Option ℕ
header_index py col i [] = none
header_index py col i ([] ∷ hs) = header_index py col (i + 1) hs
header_index py col i ((c ∷ h) ∷ hs) = elim (header_index py col (i + 1) hs) [
  | some j ↦ some j
  | none ↦ if text_eq (strip py (c ∷ h)) col then some i else none
]

-- The cell at an index; the outer option is whether it is there, the inner one is `None`.
unfoldable pub cell_at : ℕ → List (Option Cell) → Option (Option Cell)
cell_at i [] = none
cell_at zero (c ∷ cs) = some c
cell_at (suc i) (c ∷ cs) = cell_at i cs

abbrev pub cleaned : Python → Option Cell → Cell
cleaned py none = words []
cleaned py (some (words t)) = words (strip py t)
cleaned py (some (value b t)) = value b t

unfoldable pub fields : Python → List Text → ℕ → List Text → List (Option Cell) → Rec
unfolding header_index cell_at
fields py headers i [] row = []
fields py headers i (col ∷ cols) row =
    let rest = fields py headers (i + 1) cols row in
    elim (cell_at (or_else (header_index py col 0 headers) i) row) [
      | none ↦ rest
      | some c ↦ (col, cleaned py c) ∷ rest
    ]

unfoldable pub rows_to_records : Python → List Text → List (List (Option Cell)) → List Rec
unfolding fields
rows_to_records py headers [] = []
rows_to_records py headers (row ∷ rows) =
    fields py headers 0 sheet_columns row ∷ rows_to_records py headers rows

abbrev pub text_of : Cell → Text
text_of (words t) = t
text_of (value b t) = t

-- `x or None`
unfoldable pub truthy : Option Cell → Option Cell
truthy none = none
truthy (some (words [])) = none
truthy (some (words (c ∷ s))) = some (words (c ∷ s))
truthy (some (value true t)) = some (value true t)
truthy (some (value false t)) = none

-- `str(rec.get(…) or …)`
unfoldable pub str_or : Text → Option Cell → Text
unfolding truthy
str_or d o = elim (truthy o) [ none ↦ d | some c ↦ text_of c ]

-- A text that a method is called on; the method raises on anything else.
abbrev pub method_text : Cell → Option Text
method_text (words t) = some t
method_text (value b t) = none

abbrev pub true_set : List Text
true_set =
    codes "true"
    ∷ codes "1"
    ∷ codes "yes"
    ∷ codes "y"
    ∷ (0x641 ∷ 0x639 ∷ 0x627 ∷ 0x644 ∷ [])
    ∷ (0x628 ∷ 0x644 ∷ 0x647 ∷ [])
    ∷ codes "true."
    ∷ []

abbrev pub false_set : List Text
false_set =
    codes "false"
    ∷ codes "0"
    ∷ codes "no"
    ∷ codes "n"
    ∷ (0x63a ∷ 0x6cc ∷ 0x631 ∷ 0x641 ∷ 0x639 ∷ 0x627 ∷ 0x644 ∷ [])
    ∷ (0x62e ∷ 0x6cc ∷ 0x631 ∷ [])
    ∷ []

unfoldable pub parse_bool : Python → Option Cell → Bool → Bool
parse_bool py o default =
    let s : Text = elim o [ none ↦ [] | some c ↦ py.lower (strip py (text_of c)) ] in
    if any (text_eq s) true_set then true else if any (text_eq s) false_set then false else default

pub data RowError : Type 0 where
  missing_id missing_plate invalid_plate invalid_from invalid_until : RowError

abbrev pub given : Option Cell → Option Text
given none = none
given (some (words [])) = none
given (some (words (c ∷ s))) = some (c ∷ s)
given (some (value b t)) = some t

-- The test of a date; none is an exception.
abbrev pub date_error : RowError → DateResult → Option (List RowError)
date_error e bad_date = some (e ∷ [])
date_error e raises = none
date_error e _ = some []

abbrev pub also : Option (List RowError) → Option (List RowError) → Option (List RowError)
also (some es) (some fs) = some (es ++ fs)
also _ _ = none

-- `normalize_plate` of a cell; none is an exception.
unfoldable pub plate_of : Python → Text → Cell → Option (Option Text)
plate_of py mapping (words t) = some (normalize_plate py mapping (some t) none)
plate_of py mapping (value b t) = none

unfoldable pub plate_errors : Python → Text → Option Cell → Option (List RowError)
unfolding str_or plate_of
plate_errors py mapping o = elim (strip py (str_or [] o)) [
  | [] ↦ some (missing_plate ∷ [])
  | _ ∷ _ ↦ elim o [
    | none ↦ some (missing_plate ∷ [])
    | some c ↦ elim (plate_of py mapping c) [
      | none ↦ none
      | some n ↦ if is_some n then some [] else some (invalid_plate ∷ [])
    ]
  ]
]

unfoldable pub id_errors : Python → Option Cell → List RowError
unfolding str_or
id_errors py o = elim (strip py (str_or [] o)) [ [] ↦ missing_id ∷ [] | _ ∷ _ ↦ [] ]

-- `validate_row`; none is an exception.
unfoldable pub validate_row : Python → Text → Rec → Option (List RowError)
unfolding plate_errors id_errors
validate_row py mapping rec = also (some (id_errors py (get (codes "external_vehicle_id") rec))) (
    also (plate_errors py mapping (get (codes "plate_raw") rec)) (
      also
        (date_error invalid_from (parse_any_date py (given (get (codes "permit_valid_from") rec))))
        (date_error invalid_until
          (parse_any_date py (given (get (codes "permit_valid_until") rec))))))
