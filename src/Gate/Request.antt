-- ===== src/Gate/Request.antt =====
-- The arguments of `process_plate_event`, and what the parts of it share.
use parking_system.Common.{ℕ, Bool, true, false, Option, none, some, List, [], ◌∷◌, ◌++◌}
use parking_system.Common.Int.{ℤ}
use parking_system.Python.{Python, Text}
use parking_system.Model.{Decision, Direction, EventType, Gate}
use parking_system.Envelope.{Thresholds, Quality}
use parking_system.Rules.{Rule}
use parking_system.Settings.{Environment}

-- What the service is run with: Python's tables, the environment, the local wall clock (`astimezone`
-- of an instant), the thresholds of the envelope and the plate mapping in force, and the rules.
pub record Config : Type 0 where
  pub py : Python
  pub env : Environment
  pub wall_clock : ℕ → ℕ
  pub thresholds : Thresholds
  pub low_conf : ℤ
  pub letter_mapping : Text
  pub rules : List Rule

-- `now` is read at the start, `now_closing` by `close_session_amounts`, `now_rules` before the rules.
-- `fresh` is the first of the identifiers that the event draws: those of the recognition, the
-- charge, the event, the session and the occupancy.
pub record Request : Type 0 where
  pub gate_code : Text
  pub direction : Direction
  pub plate_raw : Text
  pub source_event_id : Text
  pub device_id : Option ℕ
  pub captured_at : Option ℕ
  pub confidence : Option ℤ
  pub is_manual : Bool
  pub operator_id : Option ℕ
  pub offline_created : Bool
  pub idempotency_key : Option Text
  pub client_decision : Option Decision
  pub dry_run : Bool
  pub driver_request : Option Text
  pub quality : Quality
  pub now : ℕ
  pub now_closing : ℕ
  pub now_rules : ℕ
  pub fresh : ℕ

pub data BarrierAction : Type 0 where
  open_barrier keep_closed : BarrierAction

-- `barrier_action_for`
unfoldable pub barrier_action_for : Decision → BarrierAction
barrier_action_for Decision.allow = open_barrier
barrier_action_for Decision.allow_with_warning = open_barrier
barrier_action_for Decision.offline_allow = open_barrier
barrier_action_for _ = keep_closed

-- decision in ("ALLOW", "ALLOW_WITH_WARNING")
abbrev pub admits : Decision → Bool
admits Decision.allow = true
admits Decision.allow_with_warning = true
admits _ = false

-- `idempotency_key or f"{gate.code}:{source_event_id}"`; an empty key is false.
unfoldable pub event_key : Gate → Request → Text
event_key gate r = elim r.idempotency_key [
  | none ↦ gate.code ++ (b':' ∷ r.source_event_id)
  | some k ↦ elim k [ [] ↦ gate.code ++ (b':' ∷ r.source_event_id) | c ∷ s ↦ c ∷ s ]
]

abbrev pub named : Bool → Direction → EventType
named true Direction.inward = EventType.manual_entry
named true Direction.outward = EventType.manual_exit
named false Direction.inward = EventType.entry
named false Direction.outward = EventType.exit

-- `event_type`
unfoldable pub event_type_of : Bool → Direction → Decision → EventType
event_type_of is_manual Direction.inward Decision.deny = EventType.denied_entry
event_type_of is_manual Direction.outward Decision.deny = EventType.denied_exit
event_type_of is_manual Direction.inward Decision.unknown_plate = EventType.denied_entry
event_type_of is_manual Direction.outward Decision.unknown_plate = EventType.denied_exit
event_type_of is_manual direction _ = named is_manual direction
