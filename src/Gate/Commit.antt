-- ===== src/Gate/Commit.antt =====
-- The transaction of `process_plate_event`: the rows of the verdict, the event, the session and the
-- occupancy of an entry, the vacated space of an exit. `db` is the database as the transaction finds
-- it, which other transactions may have changed since the decision.
pub mod Index
pub mod Entry
pub mod Events
use parking_system.Common.{
  ℕ, ◌+◌, Bool, true, false, not, ◌&&◌, ◌||◌, Option, none, some, List, [], ◌∷◌, ◌++◌, ◌==◌,
  if◌then◌else◌, select, latest, first, update, any, text_eq, or_else, is_some, is_id,
}
use parking_system.Python.{Text}
use parking_system.Model.{
  Decision, Direction, Gate, Vehicle, AccessPermit, ParkingSession, SessionStatus, PaymentStatus,
  Charge, ParkingSpace, SpaceStatus, ParkingAssignment, ParkingOccupancy, OccupancyStatus,
}
use parking_system.Store.{Db, AccessEvent, PlateRecognitionEvent, Reason, Warning}
use parking_system.Capacity.{is_occupied}
use parking_system.Envelope.{ReviewStatus}
use parking_system.Rules.Facts.{open_for}
use parking_system.Gate.Request.{
  Config, Request, BarrierAction, open_barrier, barrier_action_for, admits, event_key,
  event_type_of,
}
use parking_system.Gate.Decide.{Writes, Verdict, Reading, read_event, decide, apply_writes}

abbrev pub id_of : Option Vehicle → Option ℕ
id_of none = none
id_of (some v) = some v.id

abbrev pub permit_id : Option AccessPermit → Option ℕ
permit_id none = none
permit_id (some p) = some p.id

-- `pre`
unfoldable pub recognition : Gate → Request → Reading → PlateRecognitionEvent
recognition gate r x = record {
  id = r.fresh;
  gate_id = gate.id;
  device_id = r.device_id;
  direction = r.direction;
  plate_raw = r.plate_raw;
  plate_normalized = x.normalized;
  source_event_id = r.source_event_id;
  plate_corrected = none;
  plate_corrected_normalized = none;
  corrected_by = none;
  corrected_at = none;
  correction_note = none;
  review_status = x.review_status;
}

unfoldable pub new_event : Gate → Request → Reading → Verdict → AccessEvent
new_event gate r x v = record {
  id = r.fresh + 2;
  plate_recognition_event_id = if r.dry_run then none else some r.fresh;
  gate_id = gate.id;
  vehicle_id = id_of x.vehicle;
  plate_normalized = x.normalized;
  event_type = event_type_of r.is_manual r.direction v.decision;
  event_time = or_else r.captured_at r.now;
  permit_id = permit_id v.permit;
  decision = v.decision;
  decision_reason = v.reason;
  operator_id = r.operator_id;
  is_manual = r.is_manual;
  offline_created = r.offline_created;
  idempotency_key = event_key gate r;
  synced_at = if r.offline_created then some r.now else none;
}

unfoldable pub new_session : Request → Option Vehicle → Text → ParkingSession
new_session r vehicle plate = record {
  id = r.fresh + 3;
  vehicle_id = id_of vehicle;
  plate_normalized = plate;
  entry_event_id = some (r.fresh + 2);
  entry_at = or_else r.captured_at r.now;
  exit_at = none;
  duration_seconds = none;
  status = SessionStatus.opened;
  tariff_id = none;
  base_amount = 0;
  penalty_amount = 0;
  discount_amount = 0;
  final_amount = 0;
  payment_status = PaymentStatus.unpaid;
}

-- `find_assigned_space` of backend/app/parking_helpers.py: the join of spaces and assignments.
abbrev pub assigned_to : List ParkingAssignment → ℕ → ParkingSpace → Bool
assigned_to assignments vehicle_id space =
    any (λ a. (a.parking_space_id == space.id) && is_id a.vehicle_id vehicle_id && a.is_active)
      assignments

unfoldable pub find_assigned_space : Db → Option Vehicle → Option ParkingSpace
find_assigned_space db none = none
find_assigned_space db (some v) = first (assigned_to db.assignments v.id) db.spaces

abbrev pub space_id : Option ParkingSpace → Option ℕ
space_id none = none
space_id (some s) = some s.id

-- A status without a text counts as free.
abbrev pub is_free_space : ParkingSpace → Bool
is_free_space s = elim s.status [
  | SpaceStatus.free ↦ true
  | SpaceStatus.occupied ↦ false
  | SpaceStatus.other_status t ↦ text_eq t []
]

abbrev pub set_space : SpaceStatus → ℕ → List ParkingSpace → List ParkingSpace
set_space status id = update (λ s. s.id == id) (λ s. record s { status = status })

abbrev pub occupy : Option ParkingSpace → List ParkingSpace → List ParkingSpace
occupy none spaces = spaces
occupy (some s) spaces =
    if is_free_space s then set_space SpaceStatus.occupied s.id spaces else spaces

-- The session, the occupancy and the assigned space of an entry that is let in.
unfoldable pub enter : Request → Option Vehicle → Text → Db → Db
unfolding new_session find_assigned_space
enter r vehicle plate db = record db {
  sessions = db.sessions ++ new_session r vehicle plate ∷ [];
  spaces = occupy (find_assigned_space db vehicle) db.spaces;
  occupancies =
      db.occupancies
      ++ record {
        id = r.fresh + 4;
        parking_space_id = space_id (find_assigned_space db vehicle);
        vehicle_id = id_of vehicle;
        access_event_id = some (r.fresh + 2);
        occupied_at = or_else r.captured_at r.now;
        vacated_at = none;
        status = OccupancyStatus.occupied;
      }
        ∷ [];
}

-- The vehicle's latest occupancy that is not vacated.
unfoldable pub current_occupancy : Db → ℕ → Option ParkingOccupancy
current_occupancy db vehicle_id =
    latest (λ o. o.occupied_at)
      (select (λ o. is_id o.vehicle_id vehicle_id && is_occupied o.status) db.occupancies)

abbrev pub vacate_row : ℕ → ParkingOccupancy → ParkingOccupancy
vacate_row now o = record o { vacated_at = some now; status = OccupancyStatus.vacated }

abbrev pub free_space : Option ℕ → List ParkingSpace → List ParkingSpace
free_space none spaces = spaces
free_space (some id) spaces = set_space SpaceStatus.free id spaces

unfoldable pub leave : ℕ → Option Vehicle → Db → Db
unfolding current_occupancy
leave now none db = db
leave now (some v) db = elim (current_occupancy db v.id) [
  | none ↦ db
  | some o ↦ record db {
    occupancies = update (λ p. p.id == o.id) (vacate_row now) db.occupancies;
    spaces = free_space o.parking_space_id db.spaces;
  }
]

-- The unique constraint of `plate_recognition_events` on (device_id, source_event_id).
abbrev pub same_source : Request → PlateRecognitionEvent → Bool
same_source r p =
    elim r.device_id [ none ↦ false | some d ↦ is_id p.device_id d ]
    && text_eq p.source_event_id r.source_event_id

abbrev pub has_key : Text → AccessEvent → Bool
has_key key e = text_eq e.idempotency_key key

unfoldable pub find_event : Db → Text → Option AccessEvent
find_event db key = first (has_key key) db.events

-- How the transaction ends: written, or refused by a constraint.
pub data Committed : Type 0 where
  written : Db → Committed
  conflict : Committed

-- Does an entry open a session?
abbrev pub opens_session : Request → Verdict → Bool
opens_session r v = elim r.direction [
  | Direction.inward ↦ admits v.decision && v.create_new_session
  | Direction.outward ↦ false
]

abbrev pub leaves : Request → Verdict → Bool
leaves r v = elim r.direction [ Direction.inward ↦ false | Direction.outward ↦ admits v.decision ]

-- The entry's part of the transaction: `plate_normalized` must not be null, and at most one session
-- of a plate is open.
unfoldable pub commit_entry : Request → Reading → Db → Committed
unfolding enter
commit_entry r x db = elim x.normalized [
  | none ↦ conflict
  | some plate ↦
      if is_some (first (open_for plate) db.sessions)
      then conflict
      else written (enter r x.vehicle plate db)
]

abbrev pub with_event : AccessEvent → Db → Db
with_event e db = record db { events = db.events ++ e ∷ [] }

unfoldable pub commit : Gate → Request → Reading → Verdict → Db → Committed
unfolding apply_writes new_event commit_entry leave
commit gate r x v db =
    let base = with_event (new_event gate r x v) (apply_writes v.writes db) in
    if is_some (find_event db (event_key gate r))
    then conflict
    else if opens_session r v
    then commit_entry r x base
    else if leaves r v
    then written (leave r.now x.vehicle base)
    else written base
