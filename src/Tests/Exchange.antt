-- ===== src/Tests/Exchange.antt =====
-- Witnesses on the endpoints of the gates.
use parking_system.Common.{
  ◌+◌, ◌≡◌, ◌⊎◌, refl, false, none, some, [], ◌∷◌, first, any, text_eq, select,
}
use parking_system.Common.Int.{pos}
use parking_system.Python.{codes, strip, lstrip, upper_all, is_lower, is_blank, is_digit}
use parking_system.Model.{Decision, Direction}
use parking_system.Store.{Db, Reason}
use parking_system.Gate.Request.{open_barrier, keep_closed, barrier_action_for}
use parking_system.Gate.Process.{
  Response, answered, session_conflict, process_plate_event, has_code,
}
use parking_system.Gate.Process.Idempotent.{here}
use parking_system.Gate.Process.Repeats.{IsRepeated, answered_once}
use parking_system.Gate.Process.Stored.{IsStored, process-IsStored}
use parking_system.Agent.{
  Snapshot, LocalDb, offline_decide, handle_plate_event, allowed_entry, used_up,
}
use parking_system.GateApi.{
  Detected, offline_snapshot, detected_request, check_request, access_check, plate_detected,
}
use parking_system.GateApi.Offline.{Covered, offline-Covered}
use parking_system.GateApi.Checks.{Agrees, check_predicts}
use parking_system.Gate.Request.{Request, event_key, event_type_of}
use parking_system.Gate.Process.{run_event, verdict_response, mismatch}
use parking_system.Gate.Commit.{find_event, commit, new_event}
use parking_system.Gate.Decide.{
  apply_writes, read_event, decide, decide_ruled, decide_base, with_review, with_overrides,
}
use parking_system.Rules.{apply_rules_for_event, rules_for, first_match}
use parking_system.Envelope.{capture_violations, evaluate_capture, review_status_for}
use parking_system.Vehicles.{get_by_plate}
use parking_system.Plate.{
  normalize_plate, normalize_text, prepare, remove, replace_from, starts_with, translate,
  translate_digit, translate_letter, is_separator, match_plate, get_letter_map,
}
use parking_system.Tests.Fixtures.{ascii, plate, noon, config, lot, gate}

-- The snapshot of the lot.
abbrev fresh_snapshot : Snapshot
fresh_snapshot = record {
  allowed_plates =
      record {
        plate = plate;
        valid_until = parking_system.Model.Decoded.absent;
        max_entries = some 5;
        used_entries = some 1;
      }
      ∷ [];
  restricted_plates = [];
}

snapshot_taken : offline_snapshot lot (codes "G1") noon ≡ some fresh_snapshot
unfolding offline_snapshot first text_eq select
snapshot_taken = refl

snapshot_opens :
    (offline_decide (some fresh_snapshot) (some plate) Direction.inward false noon).barrier_action
    ≡ open_barrier
unfolding offline_decide any allowed_entry text_eq used_up
snapshot_opens = refl

offline-Covered_example : Covered lot (codes "G1") noon noon (some plate)
offline-Covered_example =
    offline-Covered lot (codes "G1") noon noon (some plate) false snapshot_taken snapshot_opens

abbrev detected : Detected
detected = record {
  gate_code = codes "G1";
  direction = Direction.inward;
  plate_raw = codes "?";
  source_event_id = codes "s1";
  device_id = none;
  captured_at = some noon;
  confidence = some (pos 975);
  client_decision = none;
  driver_request = none;
  sorted_at = noon;
  now = noon;
  now_closing = noon;
  now_rules = noon;
  fresh = 100;
}

abbrev offline_gate : LocalDb
offline_gate =
    (handle_plate_event ascii
      (record {
        gate_code = codes "G1";
        plate_raw = plate;
        source_event_id = codes "s1";
        direction = Direction.inward;
        captured_at = noon;
      })
      none noon
      (record {
        pending_events = [];
        snapshot = some fresh_snapshot;
        open_entries = [];
        next_id = 1;
        recent_events = [];
      })).1

-- An event at a known gate is answered.
abbrev trial : Response
trial = record {
  access_event_id = none;
  decision = Decision.unknown_plate;
  decision_reason = Reason.plate_not_readable;
  warnings = [];
  barrier_action = keep_closed;
  duplicate = false;
  needs_review = false;
}

trial_answered : access_check config lot lot detected ≡ answered trial lot
unfolding access_check check_request detected_request process_plate_event run_event first text_eq
    find_event event_key read_event normalize_plate normalize_text prepare remove replace_from
    starts_with translate translate_digit translate_letter upper_all is_lower is_separator
    match_plate strip lstrip is_blank is_digit get_letter_map get_by_plate evaluate_capture
    review_status_for decide decide_ruled decide_base with_review with_overrides
    apply_rules_for_event rules_for first_match commit new_event apply_writes any event_type_of
    barrier_action_for verdict_response mismatch capture_violations
trial_answered = refl

abbrev real : Response
real = record trial { access_event_id = some 102 }

abbrev after : Db
after = elim (plate_detected config lot lot detected) [ answered a d ↦ d | _ ↦ lot ]

real_answered : plate_detected config lot lot detected ≡ answered real after
unfolding plate_detected detected_request process_plate_event run_event first text_eq find_event
    event_key read_event normalize_plate normalize_text prepare remove replace_from starts_with
    translate translate_digit translate_letter upper_all is_lower is_separator match_plate strip
    lstrip is_blank is_digit get_letter_map get_by_plate evaluate_capture review_status_for decide
    decide_ruled decide_base with_review with_overrides apply_rules_for_event rules_for first_match
    commit new_event apply_writes any event_type_of barrier_action_for verdict_response mismatch
    capture_violations
real_answered = refl

check_predicts_example : Agrees trial real ⊎ (real ≡ session_conflict)
check_predicts_example = check_predicts config lot detected trial_answered real_answered

gate_found : first (has_code (codes "G1")) lot.gates ≡ some gate
unfolding first text_eq
gate_found = refl

process-IsStored_example : IsStored gate (detected_request detected) real lot after
unfolding detected_request plate_detected
process-IsStored_example =
    process-IsStored config lot after (detected_request detected) gate gate_found refl real_answered

real_processed :
    process_plate_event config lot lot (detected_request detected) ≡ answered real after
unfolding plate_detected
real_processed = real_answered

-- The same event from a later upload, when its plate can be read.
abbrev once_more : Request
unfolding detected_request
once_more = record (detected_request detected) {
  plate_raw = plate;
  now = noon + 60000000;
  fresh = 200;
}

answered_once_example :
    (real ≡ session_conflict)
    ⊎ ((b : Response) × (process_plate_event config after after once_more ≡ answered b after)
        × IsRepeated real b)
unfolding detected_request event_key
answered_once_example =
    answered_once config lot after after after (detected_request detected) once_more gate gate_found
      refl real_processed here refl refl
