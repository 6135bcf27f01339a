-- ===== src/Gate/Decide.antt =====
-- The decision of `process_plate_event`: what is read, in the order of the source, and a verdict
-- that holds the decision and the rows to be written.
mod Leaving
unfoldable pub use Leaving.{
  apply_writes, open_session, try_settle, closed_session, close_exit, decide_exit,
}
pub use Leaving.*
pub mod Safety
pub mod Locked
pub mod Admission
use parking_system.Common.{
  ℕ, ◌+◌, ◌-◌, Bool, true, false, not, ◌&&◌, ◌||◌, Option, none, some, List, [], ◌∷◌, ◌++◌, ◌==◌,
  ltb, if◌then◌else◌, select, latest, first, text_eq, map, or_else, is_some,
}
use parking_system.Common.Int.{ℤ, pos}
use parking_system.Python.{Python, Text}
use parking_system.Model.{
  Decision, Direction, Gate, Vehicle, AccessPermit, ParkingSession, SessionStatus, PaymentStatus,
  Charge, PaymentAllocation,
}
use parking_system.Store.{Db, Reason, Warning}
use parking_system.Plate.{normalize_plate}
use parking_system.Vehicles.{PermitReason, get_by_plate, has_active_restriction, find_active_permit}
use parking_system.Envelope.{EnvelopeResult, ReviewStatus, evaluate_capture, review_status_for}
use parking_system.Settings.{
  ExitPolicy, allow_exit, warn_exit, deny_exit, resolve_exit_policy, resolve_grace,
}
use parking_system.Capacity.{check_yard_capacity}
use parking_system.Rules.{Overrides, apply_rules_for_event}
use parking_system.Rules.Facts.{open_for, build_context}
use parking_system.Gate.Request.{Config, Request, admits}
use parking_system.Gate.Exit.{
  Closing, Settlement, duration_between, session_amounts, close_session_amounts,
  settle_exit_with_prepaid_credit,
}

abbrev pub no_permit : PermitReason → Decision × Reason
no_permit PermitReason.permit_not_found = (Decision.unknown_plate, Reason.no_active_permit)
no_permit _ = (Decision.require_operator_approval, Reason.permit_invalid_now)

-- An entry under a permit: a plate that is inside already is let in with a warning, a full yard
-- refers to the operator, else the permit is used.
unfoldable pub decide_permitted : Config → Db → Text → AccessPermit → List Warning → Verdict
decide_permitted cfg db plate permit ws =
    if is_some (first (open_for plate) db.sessions)
    then record {
      decision = Decision.allow_with_warning;
      reason = Reason.duplicate_entry_session_open;
      warnings = ws ++ Warning.session_already_open ∷ [];
      permit = some permit;
      create_new_session = false;
      writes = no_writes;
    }
    else if not (check_yard_capacity cfg.env db.app_settings db.occupancies).0
    then record {
      decision = Decision.require_operator_approval;
      reason = Reason.yard_capacity_full;
      warnings = ws ++ Warning.yard_capacity_full ∷ [];
      permit = some permit;
      create_new_session = true;
      writes = no_writes;
    }
    else record {
      decision = Decision.allow;
      reason = Reason.valid_permit;
      warnings = ws;
      permit = some permit;
      create_new_session = true;
      writes = record no_writes {
        permit = some (record permit { used_entries = permit.used_entries + 1 });
      };
    }

unfoldable pub decide_found :
    Config → Db → Text → Option AccessPermit → PermitReason → List Warning → Verdict
decide_found cfg db plate none reason ws = plain (no_permit reason).0 (no_permit reason).1 ws
decide_found cfg db plate (some permit) reason ws = decide_permitted cfg db plate permit ws

unfoldable pub decide_entry : Config → Db → Gate → Request → Text → List Warning → Verdict
decide_entry cfg db gate r plate ws =
    let (permit, reason) = find_active_permit cfg.py db.permits plate (some gate.id) r.now in
    decide_found cfg db plate permit reason ws

unfoldable pub decide_direction :
    Direction → Config → Db → Gate → Request → Text → List Warning → Verdict
decide_direction Direction.outward cfg db gate r plate ws = decide_exit cfg db r plate ws
decide_direction Direction.inward cfg db gate r plate ws = decide_entry cfg db gate r plate ws

unfoldable pub decide_vehicle :
    Config → Db → Gate → Request → Text → Vehicle → List Warning → Verdict
decide_vehicle cfg db gate r plate vehicle ws =
    if not vehicle.is_active
    then plain Decision.deny Reason.vehicle_inactive ws
    else if is_some (has_active_restriction db.restrictions plate r.now)
    then plain Decision.deny Reason.plate_restricted ws
    else decide_direction r.direction cfg db gate r plate ws

-- The decision before the rules.
unfoldable pub decide_base :
    Config → Db → Gate → Request → Option Text → Option Vehicle → List Warning → Verdict
decide_base cfg db gate r none vehicle ws =
    plain Decision.unknown_plate Reason.plate_not_readable ws
decide_base cfg db gate r (some plate) none ws =
    plain Decision.unknown_plate Reason.vehicle_not_registered ws
decide_base cfg db gate r (some plate) (some vehicle) ws =
    decide_vehicle cfg db gate r plate vehicle ws

-- The overrides of a rule on the verdict.
unfoldable pub with_overrides : Overrides → Verdict → Verdict
with_overrides o v = elim o.decision [
  | none ↦ record v { warnings = v.warnings ++ o.warnings }
  | some d ↦ record v {
    decision = d;
    reason = or_else o.reason v.reason;
    warnings = v.warnings ++ o.warnings;
  }
]

abbrev pub needs_human : ReviewStatus → Bool
needs_human ReviewStatus.needs_review = true
needs_human _ = false

-- The safety lock: a reading that needs a review never opens the barrier.
unfoldable pub with_review : ReviewStatus → Verdict → Verdict
with_review status v =
    if needs_human status && admits v.decision
    then record v {
      decision = Decision.require_operator_approval;
      reason = Reason.envelope_review_required;
      warnings = v.warnings ++ Warning.envelope_review_required ∷ [];
    }
    else v

-- What the event reads of its plate and its capture.
pub record Reading : Type 0 where
  pub normalized : Option Text
  pub vehicle : Option Vehicle
  pub capture : EnvelopeResult
  pub review_status : ReviewStatus

unfoldable pub read_event : Config → Db → Request → Reading
read_event cfg db r =
    let normalized = normalize_plate cfg.py cfg.letter_mapping (some r.plate_raw) none in
    let capture = evaluate_capture cfg.thresholds r.quality r.confidence normalized in
    record {
      normalized = normalized;
      vehicle = get_by_plate db.vehicles normalized;
      capture = capture;
      review_status = review_status_for cfg.low_conf r.confidence capture;
    }

-- The decision under the rules of the administrators, which query the database after what the
-- decision has written so far: a query flushes it.
unfoldable pub decide_ruled : Config → Db → Gate → Request → Reading → Verdict
decide_ruled cfg db gate r x =
    let v =
      decide_base cfg db gate r x.normalized x.vehicle
        (map Warning.envelope x.capture.violations) in
    with_overrides
      (apply_rules_for_event r.direction
        (build_context cfg.env (apply_writes v.writes db) gate x.normalized x.vehicle
          (is_some v.permit) r.driver_request r.now_rules)
        r.now_rules v.decision v.reason cfg.rules)
      v

unfoldable pub decide : Config → Db → Gate → Request → Reading → Verdict
decide cfg db gate r x = with_review x.review_status (decide_ruled cfg db gate r x)
