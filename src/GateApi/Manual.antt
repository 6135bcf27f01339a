-- ===== src/GateApi/Manual.antt =====
-- backend/app/modules/access_control/router.py: what an operator does by hand at a gate, and what a
-- gate tells of itself.
use parking_system.Common.{
  ℕ, Bool, true, false, ◌||◌, ◌&&◌, Option, none, some, List, [], ◌∷◌, ◌++◌, ◌==◌, if◌then◌else◌,
  first, is_some, update, text_eq,
}
use parking_system.Python.{Text, codes}
use parking_system.Model.{Gate, Decision, Direction, EventType}
use parking_system.Store.{Db, AccessEvent, Reason}
use parking_system.Gate.Request.{Config, Request}
use parking_system.Gate.Commit.{find_event}
use parking_system.Gate.Process.{Outcome, process_plate_event, has_code}

-- `needle in text`
unfoldable pub starts_with : Text → Text → Bool
starts_with [] s = true
starts_with (c ∷ cs) [] = false
starts_with (c ∷ cs) (d ∷ s) = (c == d) && starts_with cs s

unfoldable pub is_in : Text → Text → Bool
unfolding starts_with
is_in needle [] = starts_with needle []
is_in needle (c ∷ s) = starts_with needle (c ∷ s) || is_in needle s

-- ManualAccessRequest, with its operator, the text `manual-…` of the time, the readings of the clock
-- and the identifiers that its event draws.
pub record ManualAccess : Type 0 where
  pub gate_code : Text
  pub plate_raw : Text
  pub event_type : Text
  pub operator_id : Option ℕ
  pub source_event_id : Text
  pub now : ℕ
  pub now_closing : ℕ
  pub now_rules : ℕ
  pub fresh : ℕ

unfoldable pub manual_request : ManualAccess → Request
unfolding is_in
manual_request m = record {
  gate_code = m.gate_code;
  direction = if is_in (codes "ENTRY") m.event_type then Direction.inward else Direction.outward;
  plate_raw = m.plate_raw;
  source_event_id = m.source_event_id;
  device_id = none;
  captured_at = none;
  confidence = none;
  is_manual = true;
  operator_id = m.operator_id;
  offline_created = false;
  idempotency_key = none;
  client_decision = none;
  dry_run = false;
  driver_request = none;
  quality = record { angle_deg = none; lux = none; speed_kmh = none };
  now = m.now;
  now_closing = m.now_closing;
  now_rules = m.now_rules;
  fresh = m.fresh;
}

-- none where the operator may not.
unfoldable pub access_manual : Bool → Config → Db → Db → ManualAccess → Option Outcome
unfolding manual_request
access_manual permitted cfg db now m =
    if permitted then some (process_plate_event cfg db now (manual_request m)) else none

-- The event of a barrier that is opened by hand.
unfoldable pub barrier_event : ℕ → Text → Text → ℕ → ℕ → ℕ → AccessEvent
barrier_event gate_id reason key user now id = record {
  id = id;
  plate_recognition_event_id = none;
  gate_id = gate_id;
  vehicle_id = none;
  plate_normalized = none;
  event_type = EventType.barrier_open;
  event_time = now;
  permit_id = none;
  decision = Decision.allow;
  decision_reason = Reason.custom (reason);
  operator_id = some user;
  is_manual = true;
  offline_created = false;
  idempotency_key = key;
  synced_at = none;
}

-- `barrier_open` at a gate that is found; `key` is the text `barrier-…` with the gate and the time.
unfoldable pub barrier_open : Bool → Text → Text → Text → ℕ → ℕ → ℕ → Db → Option (AccessEvent × Db)
unfolding barrier_event
barrier_open permitted gate_code reason key user now id db =
    if permitted
    then elim (first (has_code gate_code) db.gates) [
      | none ↦ none
      | some gate ↦
          if is_some (find_event db key)
          then none
          else (let e = barrier_event gate.id reason key user now id in
              some (e, record db { events = db.events ++ e ∷ [] }))
    ]
    else none

pub record Device : Type 0 where
  pub gate_id : ℕ
  pub device_type : Text
  pub status : Text
  pub last_seen_at : Option ℕ

-- The fields of HeartbeatRequest that the endpoint reads.
pub record Heartbeat : Type 0 where
  pub gate_code : Text
  pub agent_version : Option Text
  pub camera_ok : Bool
  pub barrier_ok : Bool
  pub printer_ok : Option Bool

-- What a heartbeat says of a type of devices, if anything.
abbrev pub ok_of : Heartbeat → Text → Option Bool
ok_of body t =
    if text_eq t (codes "CAMERA")
    then some body.camera_ok
    else if text_eq t (codes "BARRIER")
    then some body.barrier_ok
    else if text_eq t (codes "PRINTER")
    then body.printer_ok
    else none

abbrev pub told : ℕ → Option Bool → Device → Device
told now none d = d
told now (some ok) d = record d {
  status = codes (if ok then "ONLINE" else "ERROR");
  last_seen_at = some now;
}

abbrev pub seen_gate : Heartbeat → ℕ → Gate → Gate
seen_gate body now g = record g {
  status = codes "ONLINE";
  last_seen_at = some now;
  agent_version = body.agent_version;
}

-- none where the gate is not found.
unfoldable pub heartbeat : Heartbeat → ℕ → List Device → Db → Option (List Device × Db)
heartbeat body now devices db = elim (first (has_code body.gate_code) db.gates) [
  | none ↦ none
  | some gate ↦ some (
    update (λ d. d.gate_id == gate.id) (λ d. told now (ok_of body d.device_type) d) devices,
    record db { gates = update (λ g. g.id == gate.id) (seen_gate body now) db.gates },
  )
]
