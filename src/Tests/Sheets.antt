-- ===== src/Tests/Sheets.antt =====
-- Witnesses on the synchronization of vehicles.
use parking_system.Common.{◌+◌, ◌≡◌, refl, true, false, some, List, [], ◌∷◌, arith, text_eq}
use parking_system.Python.{Text, codes, strip, is_blank}
use parking_system.VehicleSync.Dates.{jalali_to_gregorian, ordinal, parse_any_date}
use parking_system.VehicleSync.Dates.Jalali.{jalali_follows}
use parking_system.VehicleSync.Cells.{words, get, rows_to_records, validate_row}
use parking_system.VehicleSync.Tables.{SyncDb, SyncConfig, add_conflict}
use parking_system.VehicleSync.Run.{Stats, partial, answer, run, no_stats}
use parking_system.VehicleSync.Protection.{Protects}
use parking_system.VehicleSync.NonDestructive.{run-Protects}
use parking_system.VehicleSync.DryRun.{dry_run_keeps}
use parking_system.Tests.Fixtures.{ascii, noon, lot}

-- From the last day of the leap year 1403 to the first of 1404.
jalali_follows_example :
    ordinal (jalali_to_gregorian 1404 1 1) ≡ ordinal (jalali_to_gregorian 1403 12 30) + 1
jalali_follows_example = jalali_follows 1403 12 30 (omega arith) (omega arith) (omega arith)

abbrev sync_config : SyncConfig
sync_config = record { py = ascii; mapping = codes "MANY_TO_ONE"; max_rows = 10; now = noon }

abbrev known : SyncDb
known = record { db = lot; refs = []; conflicts = [] }

-- A sheet of one row that has no plate.
abbrev headers : List Text
headers = codes "external_vehicle_id" ∷ codes "brand" ∷ []

abbrev one_conflict : Stats
one_conflict = record no_stats { rows_total = 1; conflicts = 1 }

abbrev synced : SyncDb
synced =
    elim (run false sync_config 1 50
      (some (headers, (some (words (codes "7")) ∷ some (words (codes "Saipa")) ∷ []) ∷ [])) known) [
        | answer t s d ↦ d
        | _ ↦ known
      ]

run_answered :
    run false sync_config 1 50
      (some (headers, (some (words (codes "7")) ∷ some (words (codes "Saipa")) ∷ []) ∷ []))
      known
    ≡ answer partial (some one_conflict) synced
unfolding run rows_to_records validate_row strip get text_eq is_blank parse_any_date
run_answered = refl

run-Protects_example : Protects known synced
run-Protects_example =
    run-Protects false sync_config 1 50
      (some (headers, (some (words (codes "7")) ∷ some (words (codes "Saipa")) ∷ []) ∷ [])) known
      synced run_answered

dry_answered :
    run true sync_config 1 50
      (some (headers, (some (words (codes "7")) ∷ some (words (codes "Saipa")) ∷ []) ∷ []))
      known
    ≡ answer partial (some one_conflict) known
unfolding run rows_to_records validate_row strip get text_eq is_blank parse_any_date add_conflict
dry_answered = refl

dry_run_keeps_example : known ≡ known
dry_run_keeps_example =
    dry_run_keeps sync_config 1 50
      (some (headers, (some (words (codes "7")) ∷ some (words (codes "Saipa")) ∷ []) ∷ [])) known
      known dry_answered
