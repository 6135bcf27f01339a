-- ===== src/VehicleSync/Create.antt =====
-- The part of `_upsert_vehicle` for a row whose key is new.
use parking_system.Common.{
  ℕ, Bool, true, ◌&&◌, Option, none, some, [], ◌∷◌, ◌++◌, if◌then◌else◌, text_eq, any, all,
}
use parking_system.Common.Int.{ℤ}
use parking_system.Python.{Python, Text, codes, strip, upper_all}
use parking_system.Model.{Vehicle}
use parking_system.VehicleSync.Dates.{DateResult, no_date, bad_date, raises, date, parse_any_date}
use parking_system.VehicleSync.Cells.{Cell, get, text_of, truthy, str_or, method_text, parse_bool}
use parking_system.VehicleSync.Tables.{
  ExternalRef, plate_mismatch, SyncDb, SyncConfig, Row, add_conflict, RowEnd, created, skipped,
  raised, broken,
}
use parking_system.VehicleSync.Permits.{maybe_permit, date_text}

-- `int(rec["year"])` where the text is digits: the outer option is an exception.
unfoldable pub year_of : Python → Option Cell → Option (Option ℤ)
unfolding str_or
year_of py o = elim (strip py (str_or [] o)) [
  | [] ↦ some none
  | a ∷ s ↦
      if all py.is_digit_char (a ∷ s)
      then elim (py.parse_int (a ∷ s)) [ none ↦ none | some y ↦ some (some y) ]
      else some none
]

-- `(rec.get(…) or d).upper() or d`
unfoldable pub upper_or : Python → Text → Option Cell → Option Text
unfolding truthy
upper_or py d o = elim (truthy o) [
  | none ↦ some (upper_all py d)
  | some cell ↦ elim (method_text cell) [
    | none ↦ none
    | some t ↦ elim (upper_all py t) [ [] ↦ some d | a ∷ s ↦ some (a ∷ s) ]
  ]
]

abbrev pub stored : Option Cell → Option Text
stored none = none
stored (some c) = some (text_of c)

abbrev pub tag : Text × Text → Text
tag (source, id) = codes "[SYNC:" ++ (source ++ (b':' ∷ (id ++ codes "] ")))

-- The vehicle of a new row; none is an exception.
unfoldable pub new_vehicle : SyncConfig → Row → Text → Option Vehicle
unfolding year_of upper_or truthy str_or
new_vehicle c r norm =
    let year = year_of c.py (get (codes "year") r.rec) in
    let kind = upper_or c.py (codes "CAR") (get (codes "vehicle_type") r.rec) in
    let plate_kind = upper_or c.py (codes "PERSONAL") (get (codes "plate_type") r.rec) in
    elim year [
      | none ↦ none
      | some y ↦ elim kind [
        | none ↦ none
        | some k ↦ elim plate_kind [
          | none ↦ none
          | some p ↦ some (record {
            id = r.fresh;
            unit_id = none;
            vehicle_group_id = none;
            plate_raw = str_or [] (get (codes "plate_raw") r.rec);
            plate_normalized = norm;
            plate_type = p;
            vehicle_type = k;
            brand = stored (truthy (get (codes "brand") r.rec));
            model = stored (truthy (get (codes "model") r.rec));
            color = stored (truthy (get (codes "color") r.rec));
            year = y;
            notes = some (strip c.py (tag r.key ++ str_or [] (get (codes "notes") r.rec)));
            created_at = c.now;
            is_active = parse_bool c.py (get (codes "is_active") r.rec) true;
          })
        ]
      ]
    ]

abbrev pub is_ref : Text × Text → ExternalRef → Bool
is_ref (source, id) ref = text_eq ref.source_system source && text_eq ref.external_vehicle_id id

abbrev pub has_plate : Text → Vehicle → Bool
has_plate norm v = text_eq v.plate_normalized norm

abbrev pub with_ref : Row → ℕ → Option ℕ → SyncDb → SyncDb
with_ref r vehicle_id at d = record d {
  refs =
      d.refs
      ++ record {
        vehicle_id = vehicle_id;
        source_system = r.key.0;
        external_vehicle_id = r.key.1;
        external_updated_at = at;
      }
        ∷ [];
}

abbrev pub with_vehicle : Vehicle → SyncDb → SyncDb
with_vehicle v d = record d { db = record d.db { vehicles = d.db.vehicles ++ v ∷ [] } }

abbrev pub updated_at : SyncConfig → Row → DateResult
updated_at c r = parse_any_date c.py (date_text (get (codes "external_updated_at") r.rec))

-- The reference of a new vehicle, and its permit. A message in place of a date is refused by the
-- database.
unfoldable pub link_vehicle : SyncConfig → Row → Vehicle → SyncDb → DateResult → RowEnd
link_vehicle c r v d no_date = maybe_permit created c r v (with_ref r v.id none d)
link_vehicle c r v d (date t) = maybe_permit created c r v (with_ref r v.id (some t) d)
link_vehicle c r v d bad_date = broken
link_vehicle c r v d raises = raised d

unfoldable pub add_vehicle : SyncConfig → Row → SyncDb → Option Vehicle → RowEnd
unfolding link_vehicle
add_vehicle c r d none = raised d
add_vehicle c r d (some v) = link_vehicle c r v (with_vehicle v d) (updated_at c r)

unfoldable pub create_vehicle : Bool → SyncConfig → Row → Text → SyncDb → RowEnd
unfolding new_vehicle add_vehicle
create_vehicle dry c r norm d =
    if any (has_plate norm) d.db.vehicles
    then skipped (add_conflict dry r plate_mismatch d)
    else if dry
    then created d
    else add_vehicle c r d (new_vehicle c r norm)
