-- ===== src/Tests/Gates.antt =====
-- Witnesses on the gate.
use parking_system.Common.{
  map, ◌≡◌, refl, true, false, none, some, [], ◌∷◌, inl, arith, count, first, text_eq,
}
use parking_system.Python.{codes}
use parking_system.Model.{Decision, Direction, EventType}
use parking_system.Store.{Db, Reason, AccessEvent, Warning}
use parking_system.Envelope.{needs_review, evaluate_capture, review_status_for}
use parking_system.Common.Int.{pos}
use parking_system.Rules.{
  Rule, any_direction, allow_with_warning, apply_rules_for_event, is_refusal,
}
use parking_system.Rules.Facts.{build_context}
use parking_system.Rules.Safety.{final_decision, rules_keep_refusal}
use parking_system.Gate.Request.{Request, barrier_action_for, keep_closed, event_key}
use parking_system.Gate.Decide.{Reading, read_event, decide, decide_base}
use parking_system.Gate.Decide.Locked.{lock_keeps_writes}
use parking_system.Gate.Decide.Safety.{review_keeps_closed, restricted_is_denied}
use parking_system.Gate.Commit.{find_event}
use parking_system.Gate.Commit.Index.{IsConsistent}
use parking_system.Gate.Process.{process_plate_event, answered, duplicate_response}
use parking_system.Gate.Process.Idempotent.{here, call, Reach-IsConsistent}
use parking_system.Tests.Fixtures.{config, lot, gate, request, plate, vehicle}

abbrev blurred : Request
blurred = record request { confidence = some (pos 300) }

blurred_needs_review : (read_event config lot blurred).review_status ≡ needs_review
unfolding read_event evaluate_capture review_status_for
blurred_needs_review = ground arith

review_keeps_closed_example :
    barrier_action_for (decide config lot gate blurred (read_event config lot blurred)).decision
    ≡ keep_closed
review_keeps_closed_example =
    review_keeps_closed config lot gate blurred (read_event config lot blurred) blurred_needs_review

lock_keeps_writes_example :
    (barrier_action_for (decide config lot gate blurred (read_event config lot blurred)).decision
      ≡ keep_closed)
    × ((decide config lot gate blurred (read_event config lot blurred)).writes
        ≡ (decide_base config lot gate blurred
            (read_event config lot blurred).normalized
            (read_event config lot blurred).vehicle
            (map Warning.envelope (read_event config lot blurred).capture.violations)).writes)
lock_keeps_writes_example =
    lock_keeps_writes config lot gate blurred (read_event config lot blurred) blurred_needs_review

-- A rule that lets everybody in.
abbrev welcome : Rule
welcome = record {
  id = 9;
  is_live = true;
  scope = any_direction;
  priority = 1;
  match_all = true;
  conditions = [];
  actions = allow_with_warning none ∷ [];
  effective_from = none;
}

rules_keep_refusal_example :
    is_refusal (
      final_decision Decision.deny (
        apply_rules_for_event Direction.inward
          (build_context config.env lot gate (some plate) (some vehicle) false none request.now)
          request.now
          Decision.deny
          Reason.exit_unpaid_blocked
          (welcome ∷ [])))
    ≡ true
rules_keep_refusal_example =
    rules_keep_refusal Decision.deny Reason.exit_unpaid_blocked Direction.inward
      (build_context config.env lot gate (some plate) (some vehicle) false none request.now)
      request.now (welcome ∷ []) refl refl

-- The reading of the vehicle's plate, where the vehicle is out of use.
abbrev retired : Reading
retired = record {
  normalized = some plate;
  vehicle = some (record vehicle { is_active = false });
  capture = record { ok = true; review_required = false; violations = [] };
  review_status = needs_review;
}

restricted_is_denied_example :
    (decide (record config { rules = welcome ∷ [] }) lot gate request retired).decision
    ≡ Decision.deny
restricted_is_denied_example =
    restricted_is_denied (record config { rules = welcome ∷ [] }) lot gate request retired plate
      (record vehicle { is_active = false }) refl refl (inl refl)

abbrev past_event : AccessEvent
past_event = record {
  id = 50;
  plate_recognition_event_id = none;
  gate_id = 1;
  vehicle_id = some 2;
  plate_normalized = some plate;
  event_type = EventType.entry;
  event_time = 0;
  permit_id = none;
  decision = Decision.allow;
  decision_reason = Reason.valid_permit;
  operator_id = none;
  is_manual = false;
  offline_created = false;
  idempotency_key = codes "G1:s1";
  synced_at = none;
}

abbrev seen_lot : Db
seen_lot = record lot { events = past_event ∷ [] }

lot-IsConsistent : IsConsistent lot
unfolding count
lot-IsConsistent = record { keys = λ k. omega arith; opened = λ p. omega arith }

seen_lot-IsConsistent : IsConsistent seen_lot
unfolding count
seen_lot-IsConsistent = record { keys = λ k. ground arith; opened = λ p. omega arith }

-- The same event once more.
repeated :
    process_plate_event config seen_lot seen_lot request
    ≡ answered (duplicate_response past_event []) seen_lot
unfolding process_plate_event find_event event_key first text_eq
repeated = refl

Reach-IsConsistent_example : IsConsistent seen_lot
Reach-IsConsistent_example =
    Reach-IsConsistent config seen_lot seen_lot-IsConsistent
      (call seen_lot request (duplicate_response past_event []) here repeated)
