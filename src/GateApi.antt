-- ===== src/GateApi.antt =====
-- backend/app/modules/access_control/router.py: the endpoints of the gates. They are the entrances to
-- `process_plate_event`, the upload of offline events, the snapshot for the gates, and what
-- operators do by hand. The bodies are records of arguments; who may call is an argument.
mod Snapshots
unfoldable pub use Snapshots.{offline_snapshot}
pub mod Offline
pub mod Sync
pub mod Upload
pub mod Checks
pub mod Reviews
pub mod Manual
pub use Snapshots.{is_listed, allowed_plate, in_force}
use parking_system.Common.{
  ℕ, ◌+◌, Bool, true, false, not, ◌&&◌, Option, none, some, List, [], ◌∷◌, ◌++◌, ltb, any,
  if◌then◌else◌, first, is_some, or_else,
}
use parking_system.Common.Int.{ℤ}
use parking_system.Python.{Text}
use parking_system.Model.{Decision, Direction, EventType}
use parking_system.Store.{Db, AccessEvent, Reason}
use parking_system.Gate.Request.{Config, Request, event_key}
use parking_system.Gate.Commit.{same_source, find_event}
use parking_system.Gate.Process.{
  Response, Outcome, answered, gate_not_found, integrity_error, process_plate_event, has_code,
}

-- PlateDetectedRequest, with the readings of the clock and the identifiers that its event draws;
-- `sorted_at` is the reading with which an upload replaces a missing `captured_at`.
pub record Detected : Type 0 where
  pub gate_code : Text
  pub direction : Direction
  pub plate_raw : Text
  pub source_event_id : Text
  pub device_id : Option ℕ
  pub captured_at : Option ℕ
  pub confidence : Option ℤ
  pub client_decision : Option Decision
  pub driver_request : Option Text
  pub sorted_at : ℕ
  pub now : ℕ
  pub now_closing : ℕ
  pub now_rules : ℕ
  pub fresh : ℕ

-- The arguments of `plate_detected`.
unfoldable pub detected_request : Detected → Request
detected_request e = record {
  gate_code = e.gate_code;
  direction = e.direction;
  plate_raw = e.plate_raw;
  source_event_id = e.source_event_id;
  device_id = e.device_id;
  captured_at = e.captured_at;
  confidence = e.confidence;
  is_manual = false;
  operator_id = none;
  offline_created = false;
  idempotency_key = none;
  client_decision = e.client_decision;
  dry_run = false;
  driver_request = e.driver_request;
  quality = record { angle_deg = none; lux = none; speed_kmh = none };
  now = e.now;
  now_closing = e.now_closing;
  now_rules = e.now_rules;
  fresh = e.fresh;
}

-- Those of an event in `sync_offline`.
unfoldable pub sync_request : Detected → Request
unfolding detected_request
sync_request e = record (detected_request e) { offline_created = true }

-- Those of `access_check`.
unfoldable pub check_request : Detected → Request
unfolding detected_request
check_request e = record (detected_request e) { client_decision = none; dry_run = true }

unfoldable pub plate_detected : Config → Db → Db → Detected → Outcome
unfolding detected_request
plate_detected cfg db now e = process_plate_event cfg db now (detected_request e)

unfoldable pub access_check : Config → Db → Db → Detected → Outcome
unfolding check_request
access_check cfg db now e = process_plate_event cfg db now (check_request e)

-- A line of the answer to an upload; `answer` is missing where the line has an error.
pub record SyncRow : Type 0 where
  pub source_event_id : Text
  pub answer : Option (Decision × Bool × Bool)

-- The recognition is flushed outside the handler that rolls back: where its unique constraint
-- refuses it, the session stays unusable until somebody rolls back.
unfoldable pub breaks_session : Db → Request → Bool
breaks_session db r = elim (first (has_code r.gate_code) db.gates) [
  | none ↦ false
  | some gate ↦
      not (is_some (find_event db (event_key gate r)))
      && not r.dry_run
      && any (same_source r) db.recognitions
]

abbrev pub answer_of : Response → Decision × Bool × Bool
answer_of a = (a.decision, a.needs_review, a.duplicate)

-- What an event of the upload answers and leaves.
abbrev pub sync_row : Text → Outcome → Db → SyncRow × Db
sync_row id (answered a db') db =
    (record { source_event_id = id; answer = some (answer_of a) }, db')
sync_row id gate_not_found db = (record { source_event_id = id; answer = none }, db)
sync_row id integrity_error db = (record { source_event_id = id; answer = none }, db)

-- The loop of `sync_offline`; after a broken session every event fails.
unfoldable pub sync_events : Config → Bool → List Detected → Db → List SyncRow × Db
unfolding sync_request breaks_session
sync_events cfg broken [] db = ([], db)
sync_events cfg true (e ∷ es) db =
    let (rows, db') = sync_events cfg true es db in
    (record { source_event_id = e.source_event_id; answer = none } ∷ rows, db')
sync_events cfg false (e ∷ es) db =
    let (row, db') =
      sync_row e.source_event_id (process_plate_event cfg db db (sync_request e)) db in
    let (rows, db'') = sync_events cfg (breaks_session db (sync_request e)) es db' in
    (row ∷ rows, db'')

abbrev pub sort_key : Detected → ℕ
sort_key e = or_else e.captured_at e.sorted_at

-- `sorted` by `captured_at`, stable.
unfoldable pub insert_event : Detected → List Detected → List Detected
insert_event a [] = a ∷ []
insert_event a (e ∷ es) =
    let rest = insert_event a es in if ltb (sort_key e) (sort_key a) then e ∷ rest else a ∷ e ∷ es

unfoldable pub sort_events : List Detected → List Detected
unfolding insert_event
sort_events [] = []
sort_events (e ∷ es) = insert_event e (sort_events es)

unfoldable pub sync_offline : Config → List Detected → Db → List SyncRow × Db
unfolding sort_events sync_events
sync_offline cfg events db = sync_events cfg false (sort_events events) db

-- `_notify_gate_decision`: are the operators told?
unfoldable pub notifies : Response → Bool
notifies a = elim a.decision [
  | Decision.deny ↦ not a.duplicate
  | Decision.unknown_plate ↦ not a.duplicate
  | Decision.require_operator_approval ↦ not a.duplicate
  | Decision.offline_require_review ↦ not a.duplicate
  | _ ↦ false
]
