-- ===== src/Tests/Entries.antt =====
-- Witnesses on the transaction of an entry and on the letters of plates.
use parking_system.Plate.Remap.{remap_normalized_plate}
use parking_system.Plate.Remap.RoundTrip.{migration_comes_back}
use parking_system.Common.{◌≡◌, refl, true, false, some, [], arith, count, first, select, text_eq}
use parking_system.Python.{codes, is_digit}
use parking_system.Model.{Decision}
use parking_system.Store.{Db, Reason}
use parking_system.Envelope.{auto_ok}
use parking_system.Plate.{letter_map, code_of, unique_letter_map}
use parking_system.Rules.Facts.{open_for}
use parking_system.Gate.Decide.{apply_writes, Reading, Verdict, no_writes}
use parking_system.Gate.Commit.{written, commit, enter, with_event, new_event, find_event}
use parking_system.Gate.Commit.Index.{IsConsistent}
use parking_system.Gate.Commit.Entry.{entry_opens_one}
use parking_system.Tests.Fixtures.{ascii, lot, gate, request, plate, vehicle, permit}

abbrev arrived : Reading
arrived = record {
  normalized = some plate;
  vehicle = some vehicle;
  capture = record { ok = true; review_required = false; violations = [] };
  review_status = auto_ok;
}

abbrev let_in : Verdict
let_in = record {
  decision = Decision.allow;
  reason = Reason.valid_permit;
  warnings = [];
  permit = some permit;
  create_new_session = true;
  writes = no_writes;
}

abbrev entered : Db
entered =
    enter request (some vehicle) plate
      (with_event (new_event gate request arrived let_in) (apply_writes no_writes lot))

empty_lot-IsConsistent : IsConsistent lot
unfolding count
empty_lot-IsConsistent = record { keys = λ k. omega arith; opened = λ p. omega arith }

entry_is_written : commit gate request arrived let_in lot ≡ written entered
unfolding commit find_event first
entry_is_written = refl

entry_opens_one_example : count (open_for plate) entered.sessions ≡ 1
entry_opens_one_example =
    entry_opens_one gate request arrived let_in lot entered plate tt empty_lot-IsConsistent refl
      refl entry_is_written

chain_is_migrated :
    remap_normalized_plate ascii.is_decimal letter_map unique_letter_map (codes "12C345IR67")
    ≡ some (codes "12CC345IR67")
unfolding remap_normalized_plate is_digit select letter_map text_eq code_of unique_letter_map
chain_is_migrated = refl

migration_comes_back_example :
    remap_normalized_plate ascii.is_decimal unique_letter_map letter_map (codes "12CC345IR67")
    ≡ some (codes "12C345IR67")
migration_comes_back_example = migration_comes_back ascii (codes "12C345IR67") chain_is_migrated
