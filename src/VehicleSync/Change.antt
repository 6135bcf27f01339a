-- ===== src/VehicleSync/Change.antt =====
-- The part of `_upsert_vehicle` for a row whose key is known.
use parking_system.Common.{
  ℕ, Bool, true, false, not, ◌||◌, Option, none, some, ◌==◌, if◌then◌else◌, text_eq, first, update,
}
use parking_system.Common.Int.{ℤ, pos, negsuc}
use parking_system.Python.{Text, codes}
use parking_system.Model.{Vehicle}
use parking_system.VehicleSync.Dates.{DateResult, no_date, bad_date, raises, date}
use parking_system.VehicleSync.Cells.{Cell, Rec, get, text_of, truthy, method_text, parse_bool}
use parking_system.VehicleSync.Tables.{
  ExternalRef, row_error, plate_mismatch, SyncDb, SyncConfig, Row, add_conflict, RowEnd, updated,
  skipped, raised, broken,
}
use parking_system.VehicleSync.Permits.{maybe_permit}
use parking_system.VehicleSync.Create.{is_ref, year_of, updated_at}

-- The fields of a vehicle that is known: each is set where the row has a value that differs. A value
-- that is no text is never equal to a stored text.
unfoldable pub set_text : Option Cell → Option Text → Option Text
unfolding truthy
set_text o old = elim (truthy o) [ none ↦ old | some c ↦ some (text_of c) ]

unfoldable pub differs : Option Cell → Option Text → Bool
unfolding truthy
differs o old = elim (truthy o) [
  | none ↦ false
  | some c ↦ elim (method_text c) [
    | none ↦ true
    | some t ↦ elim old [ none ↦ true | some u ↦ not (text_eq t u) ]
  ]
]

abbrev pub same_int : ℤ → ℤ → Bool
same_int (pos m) (pos n) = m == n
same_int (negsuc m) (negsuc n) = m == n
same_int _ _ = false

abbrev pub same_year : ℤ → Option ℤ → Bool
same_year y none = false
same_year y (some z) = same_int y z

abbrev pub same_bool : Bool → Bool → Bool
same_bool true b = b
same_bool false b = not b

abbrev pub with_texts : Rec → Vehicle → Vehicle
with_texts rec v = record v {
  brand = set_text (get (codes "brand") rec) v.brand;
  model = set_text (get (codes "model") rec) v.model;
  color = set_text (get (codes "color") rec) v.color;
}

abbrev pub texts_differ : Rec → Vehicle → Bool
texts_differ rec v =
    differs (get (codes "brand") rec) v.brand
    || (differs (get (codes "model") rec) v.model || differs (get (codes "color") rec) v.color)

abbrev pub with_year : Option ℤ → Vehicle → Vehicle
with_year none v = v
with_year (some y) v = if same_year y v.year then v else record v { year = some y }

abbrev pub year_differs : Option ℤ → Vehicle → Bool
year_differs none v = false
year_differs (some y) v = not (same_year y v.year)

-- The columns that an update of a vehicle writes.
abbrev pub put_vehicle : Vehicle → SyncDb → SyncDb
put_vehicle v d = record d {
  db = record d.db {
    vehicles =
        update (λ w. w.id == v.id)
          (λ w. record w {
            brand = v.brand;
            model = v.model;
            color = v.color;
            year = v.year;
            is_active = v.is_active;
          })
          d.db.vehicles;
  };
}

abbrev pub put_time : Text × Text → Option ℕ → SyncDb → SyncDb
put_time key t d = record d {
  refs = update (is_ref key) (λ ref. record ref { external_updated_at = t }) d.refs;
}

-- What follows on the changes of the fields.
unfoldable pub finish_update : Bool → SyncConfig → Row → Vehicle → SyncDb → DateResult → RowEnd
finish_update false c r v d t = maybe_permit updated c r v d
finish_update true c r v d no_date = maybe_permit updated c r v (put_time r.key none d)
finish_update true c r v d (date t) = maybe_permit updated c r v (put_time r.key (some t) d)
finish_update true c r v d bad_date = broken
finish_update true c r v d raises = raised d

abbrev pub changed_vehicle : SyncConfig → Rec → Option ℤ → Vehicle → Vehicle
changed_vehicle c rec y v = record (with_year y (with_texts rec v)) {
  is_active = parse_bool c.py (get (codes "is_active") rec) v.is_active;
}

-- The year, which may be an exception, and the fields after it.
unfoldable pub change_dated : SyncConfig → Row → Vehicle → SyncDb → Option (Option ℤ) → RowEnd
unfolding finish_update set_text differs
change_dated c r v d none = raised (put_vehicle (with_texts r.rec v) d)
change_dated c r v d (some y) =
    let last = changed_vehicle c r.rec y v in
    finish_update
      (texts_differ r.rec v || (year_differs y v || not (same_bool last.is_active v.is_active))) c r
      last (put_vehicle last d) (updated_at c r)

unfoldable pub change_vehicle : SyncConfig → Row → Vehicle → SyncDb → RowEnd
unfolding change_dated year_of
change_vehicle c r v d = change_dated c r v d (year_of c.py (get (codes "year") r.rec))

abbrev pub same_plate : Option Text → Vehicle → Bool
same_plate none v = false
same_plate (some n) v = text_eq v.plate_normalized n

-- The vehicle of the reference, which may be gone.
unfoldable pub update_found :
    Bool → SyncConfig → Row → Option Text → SyncDb → Option Vehicle → RowEnd
unfolding change_vehicle
update_found dry c r norm d none = skipped (add_conflict dry r row_error d)
update_found dry c r norm d (some v) =
    if not (same_plate norm v)
    then skipped (add_conflict dry r plate_mismatch d)
    else if dry
    then updated d
    else change_vehicle c r v d

unfoldable pub update_vehicle :
    Bool → SyncConfig → Row → Option Text → ExternalRef → SyncDb → RowEnd
unfolding update_found
update_vehicle dry c r norm ref d =
    update_found dry c r norm d (first (λ v. v.id == ref.vehicle_id) d.db.vehicles)
