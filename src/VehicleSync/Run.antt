-- ===== src/VehicleSync/Run.antt =====
-- `run` of VehicleSyncService, and the endpoint `resolve_conflict` of
-- backend/app/modules/vehicle_sync/router.py.
use parking_system.Common.{
  ℕ, ◌+◌, ◌*◌, ◌-◌, Bool, true, false, ◌&&◌, ◌||◌, Option, none, some, List, [], ◌∷◌, ◌==◌, ltb,
  if◌then◌else◌, text_eq, any, first, update,
}
use parking_system.Python.{Python, Text, codes, strip, upper_all}
use parking_system.VehicleSync.Cells.{
  Cell, Rec, RowError, get, str_or, rows_to_records, validate_row,
}
use parking_system.VehicleSync.Cells.{invalid_from, invalid_until}
use parking_system.VehicleSync.Tables.{
  ConflictType, row_error, duplicate_key, resolved_applied, resolved_skipped, SyncConflict, SyncDb,
  SyncConfig, Row, add_conflict, RowEnd,
}
use parking_system.VehicleSync.Upsert.{upsert_vehicle}

pub record Stats : Type 0 where
  pub rows_total : ℕ
  pub rows_valid : ℕ
  pub rows_created : ℕ
  pub rows_updated : ℕ
  pub rows_skipped : ℕ
  pub conflicts : ℕ
  pub invalid_plates : ℕ
  pub invalid_dates : ℕ

abbrev pub no_stats : Stats
no_stats = record {
  rows_total = 0;
  rows_valid = 0;
  rows_created = 0;
  rows_updated = 0;
  rows_skipped = 0;
  conflicts = 0;
  invalid_plates = 0;
  invalid_dates = 0;
}

abbrev pub is_plate_error : RowError → Bool
is_plate_error RowError.invalid_plate = true
is_plate_error _ = false

abbrev pub plate_count : RowError → ℕ
plate_count RowError.invalid_plate = 1
plate_count _ = 0

abbrev pub date_count : RowError → ℕ
date_count invalid_from = 1
date_count invalid_until = 1
date_count _ = 0

-- The loop over the errors of a row.
unfoldable pub count_errors : List RowError → Stats → Stats
count_errors [] s = s
count_errors (e ∷ es) s = count_errors es (record s {
  invalid_plates = s.invalid_plates + plate_count e;
  invalid_dates = s.invalid_dates + date_count e;
})

abbrev pub conflict_of : List RowError → ConflictType
conflict_of es = if any is_plate_error es then ConflictType.invalid_plate else row_error

abbrev pub same_key : Text × Text → Text × Text → Bool
same_key (a, b) (s, t) = text_eq a s && text_eq b t

abbrev pub key_of : Python → Rec → Text × Text
key_of py rec = (
  strip py (str_or (codes "OPS") (get (codes "source_system") rec)),
  strip py (str_or [] (get (codes "external_vehicle_id") rec)),
)

abbrev pub is_empty : Text → Bool
is_empty [] = true
is_empty (c ∷ s) = false

-- How the loop ends: at the end of the rows, with an exception that keeps what was flushed, or with a
-- session that can commit nothing.
pub data LoopEnd : Type 0 where
  finished : Stats → SyncDb → LoopEnd
  stopped : SyncDb → LoopEnd
  lost : LoopEnd

-- What the loop knows: the keys seen, the counts and the database.
pub record Progress : Type 0 where
  pub seen : List (Text × Text)
  pub stats : Stats
  pub db : SyncDb

pub data Step : Type 0 where
  next : Progress → Step
  stop : SyncDb → Step
  lose : Step

abbrev pub after_upsert : Progress → Text × Text → RowEnd → Step
after_upsert p key (RowEnd.created d) = next (record {
  seen = key ∷ p.seen;
  stats = record p.stats { rows_created = p.stats.rows_created + 1 };
  db = d;
})
after_upsert p key (RowEnd.updated d) = next (record {
  seen = key ∷ p.seen;
  stats = record p.stats { rows_updated = p.stats.rows_updated + 1 };
  db = d;
})
after_upsert p key (RowEnd.skipped d) = next (record {
  seen = key ∷ p.seen;
  stats = record p.stats { rows_skipped = p.stats.rows_skipped + 1 };
  db = d;
})
after_upsert p key (RowEnd.raised d) = stop d
after_upsert p key RowEnd.broken = lose

abbrev pub add_to_conflicts : Stats → Stats
add_to_conflicts s = record s { conflicts = s.conflicts + 1 }

-- A row whose errors are known.
abbrev pub checked_row : Bool → SyncConfig → Row → Progress → Option (List RowError) → Step
checked_row dry c r p none = stop p.db
checked_row dry c r p (some (e ∷ es)) = next (record p {
  stats = count_errors (e ∷ es) (add_to_conflicts p.stats);
  db = add_conflict dry r (conflict_of (e ∷ es)) p.db;
})
checked_row dry c r p (some []) =
    if any (same_key r.key) p.seen || is_empty r.key.1
    then next
        (record p { stats = add_to_conflicts p.stats; db = add_conflict dry r duplicate_key p.db })
    else after_upsert p r.key (upsert_vehicle dry c r p.db)

-- The body of the loop of `run`, after `rows_total` is set.
unfoldable pub run_row : Bool → SyncConfig → Row → Progress → Step
unfolding count_errors
run_row dry c r p = checked_row dry c r p (validate_row c.py c.mapping r.rec)

-- Where the identifiers of a row begin, which is the n-th.
abbrev pub row_of : SyncConfig → Option ℕ → ℕ → ℕ → Rec → Row
row_of c run_id fresh n rec = record {
  run_id = run_id;
  number = some n;
  key = key_of c.py rec;
  rec = rec;
  fresh = fresh + 4 * n;
}

-- The loop of `run` from the row of number `n`; the rows begin with 2.
unfoldable pub run_rows : Bool → SyncConfig → Option ℕ → ℕ → ℕ → List Rec → Progress → LoopEnd
unfolding run_row
run_rows dry c run_id fresh n [] p = finished p.stats p.db
run_rows dry c run_id fresh n (rec ∷ recs) p = elim (ltb c.max_rows (n - 1)) [
  | true ↦ finished p.stats p.db
  | false ↦
      elim (run_row dry c (row_of c run_id fresh n rec)
        (record p { stats = record p.stats { rows_total = n - 1 } })) [
          | next q ↦ run_rows dry c run_id fresh (n + 1) recs q
          | stop d ↦ stopped d
          | lose ↦ lost
        ]
]

pub data RunStatus : Type 0 where
  success partial failed : RunStatus

-- How `run` ends: with an answer, which has no counts where the run failed, and the database that it
-- leaves, or with an exception of its own.
pub data RunEnd : Type 0 where
  answer : RunStatus → Option Stats → SyncDb → RunEnd
  exception : RunEnd

abbrev pub no_progress : SyncDb → Progress
no_progress d = record { seen = []; stats = no_stats; db = d }

abbrev pub run_status : Stats → RunStatus
run_status s = if s.conflicts == 0 then success else partial

abbrev pub end_of_run : LoopEnd → RunEnd
end_of_run (finished s d) = answer (run_status s) (some s) d
end_of_run (stopped d) = answer failed none d
end_of_run lost = exception

-- `run`; the sheet is none where the fetcher raises. The rows of the table of runs are left out.
unfoldable pub run :
    Bool → SyncConfig → ℕ → ℕ → Option (List Text × List (List (Option Cell))) → SyncDb → RunEnd
unfolding run_rows
run dry c run_id fresh none d = answer failed none d
run dry c run_id fresh (some (headers, rows)) d = end_of_run (
    run_rows dry c (if dry then none else some run_id) fresh 2 (rows_to_records c.py headers rows)
      (no_progress d))

-- ConflictResolve
pub data Resolution : Type 0 where
  apply skip : Resolution

unfoldable pub resolution_of : Python → Text → Option Resolution
resolution_of py s =
    let u = upper_all py s in
    if text_eq u (codes "APPLY")
    then some apply
    else if text_eq u (codes "SKIP")
    then some skip
    else none

-- Was the row applied, and with what database? none is an exception.
abbrev pub applied_of : RowEnd → Option (Bool × SyncDb)
applied_of (RowEnd.created d) = some (true, d)
applied_of (RowEnd.updated d) = some (true, d)
applied_of (RowEnd.skipped d) = some (false, d)
applied_of _ = none

-- `str(c.source_system or "OPS")` and `str(c.external_vehicle_id or "")`
abbrev pub conflict_key : Option (Text × Text) → Text × Text
conflict_key none = (codes "OPS", [])
conflict_key (some ([], id)) = (codes "OPS", id)
conflict_key (some (a ∷ s, id)) = (a ∷ s, id)

abbrev pub conflict_row : SyncConflict → ℕ → Row
conflict_row k fresh = record {
  run_id = k.run_id;
  number = k.row_number;
  key = conflict_key k.key;
  rec = k.incoming;
  fresh = fresh;
}

-- APPLY: the row is tried again, if it is valid by now.
unfoldable pub apply_conflict : SyncConfig → SyncConflict → ℕ → SyncDb → Option (Bool × SyncDb)
apply_conflict c k fresh d =
    if is_empty (conflict_row k fresh).key.1
    then some (false, d)
    else elim (validate_row c.py c.mapping k.incoming) [
      | none ↦ none
      | some es ↦ elim es [
        | _ ∷ _ ↦ some (false, d)
        | [] ↦ applied_of (upsert_vehicle false c (conflict_row k fresh) d)
      ]
    ]

abbrev pub with_resolution :
    Option (Bool × SyncDb) → ℕ → Option ℕ → ℕ → Option Text → Option (Bool × SyncDb)
with_resolution none id user now remark = none
with_resolution (some (applied, d)) id user now remark = some (
  applied,
  record d {
    conflicts =
        update (λ k. k.id == id)
          (λ k. record k {
            status = if applied then resolved_applied else resolved_skipped;
            resolved_by = user;
            resolved_at = some now;
            resolution_note = remark;
          })
          d.conflicts;
  },
)

-- `resolve_conflict`; none is a refusal or an exception, which change nothing.
unfoldable pub resolve_conflict :
    SyncConfig → ℕ → Text → Option ℕ → Option Text → ℕ → SyncDb → Option (Bool × SyncDb)
unfolding resolution_of apply_conflict
resolve_conflict c id action user remark fresh d = elim (first (λ k. k.id == id) d.conflicts) [
  | none ↦ none
  | some k ↦ elim (resolution_of c.py action) [
    | none ↦ none
    | some apply ↦ with_resolution (apply_conflict c k fresh d) id user c.now remark
    | some skip ↦ with_resolution (some (false, d)) id user c.now remark
  ]
]
