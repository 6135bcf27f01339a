-- ===== src/Gate/Process.antt =====
-- `process_plate_event` of GateDecisionService: the gate, the idempotency key, the decision, the
-- transaction and what is answered when the transaction meets a conflict.
pub mod Idempotent
pub mod Uploads
pub mod Stored
pub mod Recorded
pub mod Repeats
use parking_system.Common.{
  ℕ, ◌+◌, Bool, true, false, not, ◌&&◌, Option, none, some, List, [], ◌∷◌, ◌++◌, if◌then◌else◌,
  first, any, text_eq, is_some,
}
use parking_system.Python.{Text}
use parking_system.Model.{Decision, Direction, Gate}
use parking_system.Store.{Db, AccessEvent, Reason, Warning}
use parking_system.Rules.Facts.{open_for}
use parking_system.Gate.Request.{
  Config, Request, BarrierAction, open_barrier, barrier_action_for, event_key,
}
use parking_system.Gate.Decide.{Verdict, Reading, read_event, decide}
use parking_system.Gate.Commit.{
  Committed, written, conflict, recognition, same_source, find_event, find_assigned_space, commit,
  opens_session, is_free_space,
}

-- The answer, as far as it does not repeat rows of the database.
pub record Response : Type 0 where
  pub access_event_id : Option ℕ
  pub decision : Decision
  pub decision_reason : Reason
  pub warnings : List Warning
  pub barrier_action : BarrierAction
  pub duplicate : Bool
  pub needs_review : Bool

-- The end of a call: an answer with the database that it leaves, or an exception, which leaves the
-- database as it was: ValueError for an unknown gate, or the IntegrityError that is raised again.
pub data Outcome : Type 0 where
  answered : Response → Db → Outcome
  gate_not_found integrity_error : Outcome

-- `duplicate_response`
unfoldable pub duplicate_response : AccessEvent → List Warning → Response
duplicate_response e extra = record {
  access_event_id = some e.id;
  decision = e.decision;
  decision_reason = e.decision_reason;
  warnings = Warning.duplicate_event ∷ extra;
  barrier_action = barrier_action_for e.decision;
  duplicate = true;
  needs_review = false;
}

abbrev pub same_decision : Decision → Decision → Bool
same_decision Decision.allow Decision.allow = true
same_decision Decision.allow_with_warning Decision.allow_with_warning = true
same_decision Decision.require_operator_approval Decision.require_operator_approval = true
same_decision Decision.deny Decision.deny = true
same_decision Decision.unknown_plate Decision.unknown_plate = true
same_decision Decision.offline_allow Decision.offline_allow = true
same_decision Decision.offline_require_review Decision.offline_require_review = true
same_decision _ _ = false

-- client_decision and client_decision != decision
unfoldable pub mismatch : Option Decision → Decision → Bool
mismatch none d = false
mismatch (some c) d = not (same_decision c d)

-- ASSIGNED_SPACE_NOT_FREE, where an entry finds its space taken.
abbrev pub space_warning : Db → Request → Reading → Verdict → List Warning
space_warning db r x v =
    if opens_session r v
    then elim (find_assigned_space db x.vehicle) [
      | none ↦ []
      | some s ↦ if is_free_space s then [] else Warning.assigned_space_not_free ∷ []
    ]
    else []

unfoldable pub verdict_response : Db → Gate → Request → Reading → Verdict → Response
verdict_response db gate r x v = record {
  access_event_id = if r.dry_run then none else some (r.fresh + 2);
  decision = v.decision;
  decision_reason = v.reason;
  warnings =
      v.warnings
      ++ ((if r.dry_run then [] else space_warning db r x v)
          ++ (if mismatch r.client_decision v.decision
              then Warning.offline_decision_mismatch ∷ []
              else []));
  barrier_action = barrier_action_for v.decision;
  duplicate = false;
  needs_review = mismatch r.client_decision v.decision;
}

-- The answer to an entry whose session another transaction has opened.
abbrev pub session_conflict : Response
session_conflict = record {
  access_event_id = none;
  decision = Decision.allow_with_warning;
  decision_reason = Reason.session_already_open;
  warnings = Warning.duplicate_event ∷ Warning.concurrent_session_conflict ∷ [];
  barrier_action = open_barrier;
  duplicate = false;
  needs_review = false;
}

abbrev pub has_open : Option Text → Db → Bool
has_open none db = false
has_open (some plate) db = is_some (first (open_for plate) db.sessions)

abbrev pub is_entry : Direction → Bool
is_entry Direction.inward = true
is_entry Direction.outward = false

-- `except IntegrityError`, after the rollback.
unfoldable pub after_conflict : Db → Gate → Request → Reading → Outcome
unfolding duplicate_response
after_conflict db gate r x = elim (find_event db (event_key gate r)) [
  | some e ↦ answered (duplicate_response e (Warning.concurrent_conflict ∷ [])) db
  | none ↦
      if is_entry r.direction && has_open x.normalized db
      then answered session_conflict db
      else integrity_error
]

-- The part after the duplicate check: `db` is read, `now` is what the transaction finds.
unfoldable pub run_event : Config → Db → Db → Gate → Request → Outcome
unfolding verdict_response after_conflict
run_event cfg db now gate r =
    let x = read_event cfg db r in
    let v = decide cfg db gate r x in
    let pre = recognition gate r x in
    if r.dry_run
    then answered (verdict_response db gate r x v) now
    else if any (same_source r) now.recognitions
    then integrity_error
    else elim (commit gate r x v (record now { recognitions = now.recognitions ++ pre ∷ [] })) [
      | written db' ↦ answered (verdict_response now gate r x v) db'
      | conflict ↦ after_conflict now gate r x
    ]

abbrev pub has_code : Text → Gate → Bool
has_code code g = text_eq g.code code

unfoldable pub process_plate_event : Config → Db → Db → Request → Outcome
unfolding duplicate_response run_event
process_plate_event cfg db now r = elim (first (has_code r.gate_code) db.gates) [
  | none ↦ gate_not_found
  | some gate ↦ elim (find_event db (event_key gate r)) [
    | some e ↦ answered (duplicate_response e []) now
    | none ↦ run_event cfg db now gate r
  ]
]
