-- ===== src/Tests/Reviews.antt =====
-- A witness on the review of plates.
use parking_system.Common.{◌≡◌, refl, true, none, some, [], ◌∷◌, first, text_eq}
use parking_system.Python.{codes, upper_all, is_lower}
use parking_system.Model.{Direction}
use parking_system.Store.{Db}
use parking_system.Envelope.{ReviewStatus}
use parking_system.GateApi.Reviews.{Resolve, reviewed, resolve_plate_review}
use parking_system.GateApi.Reviews.Kept.{IsReview, resolve_keeps_readings}
use parking_system.Tests.Fixtures.{ascii, noon, lot}

abbrev read_badly : Db
read_badly = record lot {
  recognitions =
      record {
        id = 100;
        gate_id = 1;
        device_id = none;
        direction = Direction.inward;
        plate_raw = codes "12B345IR6";
        plate_normalized = none;
        source_event_id = codes "s1";
        plate_corrected = none;
        plate_corrected_normalized = none;
        corrected_by = none;
        corrected_at = none;
        correction_note = none;
        review_status = ReviewStatus.needs_review;
      }
      ∷ [];
}

abbrev correction : Resolve
correction = record { action = codes "correct"; plate_raw = some (codes "12B346IR67"); note = none }

abbrev reviewed_db : Db
reviewed_db =
    elim (resolve_plate_review ascii (codes "UNIQUE") true 100 correction 7 noon read_badly) [
      | reviewed s d ↦ d
      | _ ↦ lot
    ]

correction_accepted :
    resolve_plate_review ascii (codes "UNIQUE") true 100 correction 7 noon read_badly
    ≡ reviewed ReviewStatus.corrected reviewed_db
unfolding resolve_plate_review first text_eq upper_all is_lower
correction_accepted = refl

resolve_keeps_readings_example : IsReview 100 ReviewStatus.corrected read_badly reviewed_db
resolve_keeps_readings_example =
    resolve_keeps_readings ascii (codes "UNIQUE") true 100 correction 7 noon read_badly reviewed_db
      correction_accepted
