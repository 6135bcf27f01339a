-- ===== src/VehicleSync/NonDestructive.antt =====
-- A run of the synchronization destroys nothing; a dry run changes nothing.
use parking_system.Common.{
  ℕ, ◌+◌, ◌-◌, ◌≡◌, subst, Bool, true, false, ◌||◌, Option, none, some, List, [], ◌∷◌, inl, inr,
  Bool-cases, first, any, ltb,
}
use parking_system.Common.Int.{ℤ}
use parking_system.Python.{Text, codes}
use parking_system.Model.{Vehicle}
use parking_system.VehicleSync.Dates.{DateResult, no_date, bad_date, raises, date}
use parking_system.VehicleSync.Cells.{Cell, Rec, RowError, get, validate_row, rows_to_records}
use parking_system.VehicleSync.Tables.{
  ExternalRef, SyncDb, SyncConfig, Row, RowEnd, created, updated, skipped, raised, broken,
  plate_mismatch, row_error, duplicate_key,
}
use parking_system.VehicleSync.Permits.{maybe_permit}
use parking_system.VehicleSync.Create.{
  with_vehicle, link_vehicle, create_vehicle, new_vehicle, add_vehicle, has_plate, is_ref,
  updated_at, year_of,
}
use parking_system.VehicleSync.Change.{
  put_vehicle, finish_update, change_vehicle, change_dated, update_found, same_plate,
  update_vehicle, with_texts, changed_vehicle,
}
use parking_system.VehicleSync.Upsert.{upsert_vehicle, upsert_known, upsert_plate, row_plate}
use parking_system.VehicleSync.Protection.{
  Protects, Protects-refl, Protects-trans, Ends, maybe_permit-Protects, conflict-Protects,
  put-Protects, new-Protects, refs-Protects,
}
use parking_system.VehicleSync.Run.{
  Stats, Progress, Step, next, stop, lose, LoopEnd, finished, stopped, lost, answer, RunStatus,
  run_row, run_rows, run, row_of, checked_row, after_upsert, same_key, is_empty, no_progress,
  end_of_run, conflict_of,
}

module _ (start : SyncDb) (c : SyncConfig) (r : Row) where
  finish :
      (v : Vehicle) (d : SyncDb)
      → Protects start d
      → Ends (Protects start) (maybe_permit updated c r v d)
  finish v d h = maybe_permit-Protects start updated (λ e k. k) c r v d h

  link-Protects :
      (v : Vehicle) (d : SyncDb) (t : DateResult)
      → Protects start d
      → Ends (Protects start) (link_vehicle c r v d t)
  unfolding link_vehicle
  link-Protects v d no_date h =
      maybe_permit-Protects start created (λ e k. k) c r v _
        (Protects-trans start d _ h (refs-Protects d _))
  link-Protects v d (date t) h =
      maybe_permit-Protects start created (λ e k. k) c r v _
        (Protects-trans start d _ h (refs-Protects d _))
  link-Protects v d bad_date h = tt
  link-Protects v d raises h = h

  update-Protects :
      (changed : Bool) (v : Vehicle) (d : SyncDb) (t : DateResult)
      → Protects start d
      → Ends (Protects start) (finish_update changed c r v d t)
  unfolding finish_update
  update-Protects false v d t h = finish v d h
  update-Protects true v d no_date h = finish v _ (Protects-trans start d _ h (refs-Protects d _))
  update-Protects true v d (date t) h = finish v _ (Protects-trans start d _ h (refs-Protects d _))
  update-Protects true v d bad_date h = tt
  update-Protects true v d raises h = h

module _ (dry : Bool) (c : SyncConfig) (r : Row) (d : SyncDb) where
  added-Protects : (o : Option Vehicle) → Ends (Protects d) (add_vehicle c r d o)
  unfolding add_vehicle
  added-Protects none = Protects-refl d
  added-Protects (some v) =
      link-Protects d c r v (with_vehicle v d) (updated_at c r) (new-Protects v d)

  create-Protects : (norm : Text) → Ends (Protects d) (create_vehicle dry c r norm d)
  unfolding create_vehicle
  create-Protects norm = elim (Bool-cases (any (has_plate norm) d.db.vehicles)) [
    | inl taken ↦ rw taken (conflict-Protects dry r plate_mismatch d)
    | inr free ↦ elim (Bool-cases dry) [
      | inl trial ↦ rw (free, trial) (Protects-refl d)
      | inr real ↦ rw (free, real) (added-Protects (new_vehicle c r norm))
    ]
  ]

  dated-Protects :
      (v : Vehicle) (y : Option (Option ℤ)) → Ends (Protects d) (change_dated c r v d y)
  unfolding change_dated
  dated-Protects v none = put-Protects (with_texts r.rec v) d
  dated-Protects v (some y) =
      let last = changed_vehicle c r.rec y v in
      update-Protects d c r _ last (put_vehicle last d) (updated_at c r) (put-Protects last d)

  found-Protects :
      (norm : Option Text) (o : Option Vehicle) → Ends (Protects d) (update_found dry c r norm d o)
  unfolding update_found change_vehicle
  found-Protects norm none = conflict-Protects dry r row_error d
  found-Protects norm (some v) = elim (Bool-cases (same_plate norm v)) [
    | inr other ↦ rw other (conflict-Protects dry r plate_mismatch d)
    | inl same ↦ elim (Bool-cases dry) [
      | inl trial ↦ rw (same, trial) (Protects-refl d)
      | inr real ↦ rw (same, real) (dated-Protects v (year_of c.py (get (codes "year") r.rec)))
    ]
  ]

  known-Protects :
      (norm : Option Text) (o : Option ExternalRef)
      → Ends (Protects d) (upsert_known dry c r d norm o)
  unfolding upsert_known update_vehicle
  known-Protects norm (some ref) = found-Protects norm _
  known-Protects none none = elim (Bool-cases dry) [
    | inl trial ↦ rw trial (Protects-refl d)
    | inr real ↦ rw real tt
  ]
  known-Protects (some n) none = create-Protects n

  plate-Protects : (o : Option (Option Text)) → Ends (Protects d) (upsert_plate dry c r d o)
  unfolding upsert_plate
  plate-Protects none = Protects-refl d
  plate-Protects (some norm) = known-Protects norm (first (is_ref r.key) d.refs)

  upsert-Protects : Ends (Protects d) (upsert_vehicle dry c r d)
  unfolding upsert_vehicle
  upsert-Protects = plate-Protects (row_plate c r.rec)

pub answer_db :
    {t u : RunStatus} {s v : Option Stats} {d e : SyncDb} → answer t s d ≡ answer u v e → d ≡ e
answer_db h = cc

-- What the steps and the end of a run leave.
abbrev pub StepEnds : (SyncDb → Type 0) → Step → Type 0
StepEnds P (next p) = P p.db
StepEnds P (stop d) = P d
StepEnds P lose = Unit

abbrev pub LoopEnds : (SyncDb → Type 0) → LoopEnd → Type 0
LoopEnds P (finished s d) = P d
LoopEnds P (stopped d) = P d
LoopEnds P lost = Unit

pub upsert_step :
    (P : SyncDb → Type 0) (p : Progress) (key : Text × Text) (e : RowEnd)
    → Ends P e
    → StepEnds P (after_upsert p key e)
upsert_step P p key (created d) h = h
upsert_step P p key (updated d) h = h
upsert_step P p key (skipped d) h = h
upsert_step P p key (raised d) h = h
upsert_step P p key broken h = tt

-- One row and the rest of the loop.
pub after_step :
    (P Q : SyncDb → Type 0) (rest : Progress → LoopEnd) (s : Step)
    → StepEnds Q s
    → ((q : Progress) → Q q.db → LoopEnds P (rest q))
    → ((d : SyncDb) → Q d → P d)
    → LoopEnds P (elim s [ next q ↦ rest q | stop d ↦ stopped d | lose ↦ lost ])
after_step P Q rest (next q) k more now = more q k
after_step P Q rest (stop d) k more now = now d k
after_step P Q rest lose k more now = tt

abbrev counted : ℕ → Progress → Progress
counted n p = record p { stats = record p.stats { rows_total = n - 1 } }

module _ (dry : Bool) (c : SyncConfig) where
  checked-Protects :
      (r : Row) (p : Progress) (o : Option (List RowError))
      → StepEnds (Protects p.db) (checked_row dry c r p o)
  checked-Protects r p none = Protects-refl p.db
  checked-Protects r p (some (e ∷ es)) = conflict-Protects dry r (conflict_of (e ∷ es)) p.db
  checked-Protects r p (some []) =
      elim (Bool-cases (any (same_key r.key) p.seen || is_empty r.key.1)) [
        | inl twice ↦ rw twice (conflict-Protects dry r duplicate_key p.db)
        | inr fresh ↦ rw fresh (
            upsert_step (Protects p.db) p r.key (upsert_vehicle dry c r p.db)
              (upsert-Protects dry c r p.db))
      ]

  rows-Protects :
      (run_id : Option ℕ) (fresh n : ℕ) (recs : List Rec) (start : SyncDb) (p : Progress)
      → Protects start p.db
      → LoopEnds (Protects start) (run_rows dry c run_id fresh n recs p)
  unfolding run_rows run_row
  rows-Protects run_id fresh n [] start p h = h
  rows-Protects run_id fresh n (rec ∷ recs) start p h = elim (Bool-cases (ltb c.max_rows (n - 1))) [
    | inl full ↦ rw (full, LoopEnds) h
    | inr room ↦
        rw (room, LoopEnds)
          (after_step (Protects start) (Protects p.db) (run_rows dry c run_id fresh (n + 1) recs)
            (checked_row dry c (row_of c run_id fresh n rec) (counted n p)
              (validate_row c.py c.mapping rec))
            (checked-Protects (row_of c run_id fresh n rec) (counted n p)
              (validate_row c.py c.mapping rec))
            (λ q k.
              rows-Protects run_id fresh (n + 1) recs start q (Protects-trans start p.db q.db h k))
            (λ d k. Protects-trans start p.db d h k))
  ]

pub answer_ends :
    (P : SyncDb → Type 0) (l : LoopEnd) (t : RunStatus) (s : Option Stats) (e : SyncDb)
    → LoopEnds P l
    → end_of_run l ≡ answer t s e
    → P e
answer_ends P (finished u d) t s e h k = subst P (answer_db k) h
answer_ends P (stopped d) t s e h k = subst P (answer_db k) h
answer_ends P lost t s e h k = cc

-- A run that is answered, also one that fails on the way, keeps every permit as it is, adds permits and
-- conflicts only behind those that are there, changes of a vehicle nothing that identifies it, and
-- touches no other table: no restriction, no charge, no payment, no session and no event.
pub run-Protects :
    (dry : Bool) (c : SyncConfig) (run_id fresh : ℕ)
    (sheet : Option (List Text × List (List (Option Cell)))) (d e : SyncDb) {t : RunStatus}
    {s : Option Stats}
    → run dry c run_id fresh sheet d ≡ answer t s e
    → Protects d e
unfolding run
run-Protects dry c run_id fresh none d e {t} {s} h =
    subst (Protects d) (answer_db h) (Protects-refl d)
run-Protects dry c run_id fresh (some (headers, rows)) d e {t} {s} h =
    answer_ends (Protects d) _ t s e
      (rows-Protects dry c _ fresh 2 (rows_to_records c.py headers rows) d (no_progress d)
        (Protects-refl d))
      h
