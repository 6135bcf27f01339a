-- ===== src/VehicleSync/DryRun.antt =====
-- A dry run of the synchronization.
use parking_system.Common.{
  ℕ, ◌+◌, ◌-◌, ◌≡◌, refl, sym, ◌∙◌, true, ◌||◌, Option, none, some, List, [], ◌∷◌, inl, inr,
  Bool-cases, first, any, ltb,
}
use parking_system.Python.{Text}
use parking_system.Model.{Vehicle}
use parking_system.VehicleSync.Cells.{Cell, Rec, RowError, validate_row, rows_to_records}
use parking_system.VehicleSync.Tables.{
  ExternalRef, ConflictType, SyncDb, SyncConfig, Row, add_conflict, duplicate_key,
}
use parking_system.VehicleSync.Create.{create_vehicle, has_plate, is_ref}
use parking_system.VehicleSync.Change.{update_found, same_plate, update_vehicle}
use parking_system.VehicleSync.Upsert.{upsert_vehicle, upsert_known, upsert_plate, row_plate}
use parking_system.VehicleSync.Protection.{Ends}
use parking_system.VehicleSync.NonDestructive.{
  StepEnds, LoopEnds, after_step, upsert_step, answer_ends, answer_db,
}
use parking_system.VehicleSync.Run.{
  Stats, Progress, answer, RunStatus, run_row, run_rows, run, row_of, checked_row, same_key,
  is_empty, no_progress, conflict_of,
}

abbrev Same : SyncDb → SyncDb → Type 0
Same d e = e ≡ d

conflict-Same : (r : Row) (t : ConflictType) (d : SyncDb) → add_conflict true r t d ≡ d
unfolding add_conflict
conflict-Same r t d = refl

module _ (c : SyncConfig) (r : Row) (d : SyncDb) where
  create-Same : (norm : Text) → Ends (Same d) (create_vehicle true c r norm d)
  unfolding create_vehicle add_conflict
  create-Same norm = elim (Bool-cases (any (has_plate norm) d.db.vehicles)) [
    | inl taken ↦ rw taken refl
    | inr free ↦ rw free refl
  ]

  found-Same :
      (norm : Option Text) (o : Option Vehicle) → Ends (Same d) (update_found true c r norm d o)
  unfolding update_found add_conflict
  found-Same norm none = refl
  found-Same norm (some v) = elim (Bool-cases (same_plate norm v)) [
    | inr other ↦ rw other refl
    | inl same ↦ rw same refl
  ]

  known-Same :
      (norm : Option Text) (o : Option ExternalRef) → Ends (Same d) (upsert_known true c r d norm o)
  unfolding upsert_known update_vehicle
  known-Same norm (some ref) = found-Same norm _
  known-Same none none = refl
  known-Same (some n) none = create-Same n

  plate-Same : (o : Option (Option Text)) → Ends (Same d) (upsert_plate true c r d o)
  unfolding upsert_plate
  plate-Same none = refl
  plate-Same (some norm) = known-Same norm (first (is_ref r.key) d.refs)

  upsert-Same : Ends (Same d) (upsert_vehicle true c r d)
  unfolding upsert_vehicle
  upsert-Same = plate-Same (row_plate c r.rec)

checked-Same :
    (c : SyncConfig) (r : Row) (p : Progress) (o : Option (List RowError))
    → StepEnds (Same p.db) (checked_row true c r p o)
checked-Same c r p none = refl
checked-Same c r p (some (e ∷ es)) = conflict-Same r (conflict_of (e ∷ es)) p.db
checked-Same c r p (some []) = elim (Bool-cases (any (same_key r.key) p.seen || is_empty r.key.1)) [
  | inl twice ↦ rw twice (conflict-Same r duplicate_key p.db)
  | inr fresh ↦
      rw fresh
        (upsert_step (Same p.db) p r.key (upsert_vehicle true c r p.db) (upsert-Same c r p.db))
]

rows-Same :
    (c : SyncConfig) (run_id : Option ℕ) (fresh n : ℕ) (recs : List Rec) (start : SyncDb)
    (p : Progress)
    → Same start p.db
    → LoopEnds (Same start) (run_rows true c run_id fresh n recs p)
unfolding run_rows run_row
rows-Same c run_id fresh n [] start p h = h
rows-Same c run_id fresh n (rec ∷ recs) start p h = elim (Bool-cases (ltb c.max_rows (n - 1))) [
  | inl full ↦ rw (full, LoopEnds) h
  | inr room ↦
      let q = record p { stats = record p.stats { rows_total = n - 1 } } in
      rw (room, LoopEnds)
        (after_step (Same start) (Same p.db) (run_rows true c run_id fresh (n + 1) recs)
          (checked_row true c (row_of c run_id fresh n rec) q (validate_row c.py c.mapping rec))
          (checked-Same c (row_of c run_id fresh n rec) q (validate_row c.py c.mapping rec))
          (λ t k. rows-Same c run_id fresh (n + 1) recs start t (k ∙ h)) (λ d k. k ∙ h))
]

-- A dry run leaves the database as it is.
pub dry_run_keeps :
    (c : SyncConfig) (run_id fresh : ℕ) (sheet : Option (List Text × List (List (Option Cell))))
    (d e : SyncDb) {t : RunStatus} {s : Option Stats}
    → run true c run_id fresh sheet d ≡ answer t s e
    → e ≡ d
unfolding run
dry_run_keeps c run_id fresh none d e {t} {s} h = sym (answer_db h)
dry_run_keeps c run_id fresh (some (headers, rows)) d e {t} {s} h =
    answer_ends (Same d) _ t s e
      (rows-Same c none fresh 2 (rows_to_records c.py headers rows) d (no_progress d) refl) h
