-- ===== src/VehicleSync/Tables.antt =====
-- The tables of backend/app/modules/vehicle_sync/models.py, the arguments of a row's
-- synchronization, and `_add_conflict`.
use parking_system.Common.{ℕ, ◌+◌, Bool, Option, none, some, List, [], ◌∷◌, ◌++◌, if◌then◌else◌}
use parking_system.Python.{Python, Text}
use parking_system.Store.{Db}
use parking_system.VehicleSync.Cells.{Rec}

pub record ExternalRef : Type 0 where
  pub vehicle_id : ℕ
  pub source_system : Text
  pub external_vehicle_id : Text
  pub external_updated_at : Option ℕ

pub data ConflictType : Type 0 where
  invalid_plate row_error duplicate_key plate_mismatch permit_change : ConflictType

pub data ConflictStatus : Type 0 where
  pending resolved_applied resolved_skipped : ConflictStatus

-- VehicleSyncConflict, without its message and the rows that it shows.
pub record SyncConflict : Type 0 where
  pub id : ℕ
  pub run_id : Option ℕ
  pub row_number : Option ℕ
  pub key : Option (Text × Text)
  pub conflict_type : ConflictType
  pub incoming : Rec
  pub status : ConflictStatus
  pub resolved_by : Option ℕ
  pub resolved_at : Option ℕ
  pub resolution_note : Option Text

-- The database with the tables of the synchronization.
pub record SyncDb : Type 0 where
  pub db : Db
  pub refs : List ExternalRef
  pub conflicts : List SyncConflict

-- Python's tables, PLATE_LETTER_MAPPING, VEHICLE_SYNC_MAX_ROWS and the time of the run.
pub record SyncConfig : Type 0 where
  pub py : Python
  pub mapping : Text
  pub max_rows : ℕ
  pub now : ℕ

-- A row of the sheet: its number, its key, its dict, and the identifiers that it draws: those of a
-- vehicle, a permit and two conflicts, from `fresh` on.
pub record Row : Type 0 where
  pub run_id : Option ℕ
  pub number : Option ℕ
  pub key : Text × Text
  pub rec : Rec
  pub fresh : ℕ

unfoldable pub add_conflict : Bool → Row → ConflictType → SyncDb → SyncDb
add_conflict dry r t d = if dry then d else record d {
  conflicts =
      d.conflicts
      ++ record {
        id = r.fresh + 2;
        run_id = r.run_id;
        row_number = r.number;
        key = some r.key;
        conflict_type = t;
        incoming = r.rec;
        status = pending;
        resolved_by = none;
        resolved_at = none;
        resolution_note = none;
      }
        ∷ [];
}

-- How a row ends: with its result, with an exception that keeps what was flushed before, or with one
-- of the database at a flush, after which nothing of the run can be committed.
pub data RowEnd : Type 0 where
  created updated skipped raised : SyncDb → RowEnd
  broken : RowEnd
