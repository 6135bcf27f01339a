-- ===== src/Store.antt =====
-- The database: the tables that the modelled operations read and write, each a list of rows in
-- the order of insertion, with the enumerations of the gate's events. `new_uuid` is an argument of
-- the operations that insert rows. What is rolled back is an operation that returns no database.
use parking_system.Common.{ℕ, Bool, List, Option}
use parking_system.Python.{Text}
use parking_system.Model.{
  Decision, Direction, EventType, Vehicle, AccessPermit, VehicleRestriction, Gate, ParkingSession,
  Tariff, Charge, Payment, PaymentAllocation, ParkingSpace, ParkingAssignment, ParkingOccupancy,
}
use parking_system.Envelope.{EnvelopeViolation, ReviewStatus}
use parking_system.Settings.{AppSetting}

-- `decision_reason`; a rule may bring a text of its own.
pub data Reason : Type 0 where
  plate_not_readable vehicle_not_registered vehicle_inactive plate_restricted : Reason
  exit_unpaid_blocked exit_session_closed no_open_session_for_exit no_active_permit : Reason
  permit_invalid_now duplicate_entry_session_open yard_capacity_full valid_permit : Reason
  envelope_review_required session_already_open rule_refer_guard rule_deny rule_allow : Reason
  unknown_plate : Reason
  custom : Text → Reason

pub data Warning : Type 0 where
  duplicate_event concurrent_conflict concurrent_session_conflict : Warning
  envelope : EnvelopeViolation → Warning
  unpaid_exit_blocked_by_policy no_active_tariff night_skipped_no_entry_time : Warning
  night_tariff_applied day_definition_fallback_24h daily_cap_applied min_amount_applied : Warning
  exit_settled_within_grace prepaid_credit_partially_applied unpaid_exit : Warning
  no_open_session_for_exit session_already_open yard_capacity_full : Warning
  rule_soften_blocked envelope_review_required assigned_space_not_free : Warning
  offline_decision_mismatch : Warning
  unknown_action : Text → Warning

pub record AccessEvent : Type 0 where
  pub id : ℕ
  pub plate_recognition_event_id : Option ℕ
  pub gate_id : ℕ
  pub vehicle_id : Option ℕ
  pub plate_normalized : Option Text
  pub event_type : EventType
  pub event_time : ℕ
  pub permit_id : Option ℕ
  pub decision : Decision
  pub decision_reason : Reason
  pub operator_id : Option ℕ
  pub is_manual : Bool
  pub offline_created : Bool
  pub idempotency_key : Text
  pub synced_at : Option ℕ

pub record PlateRecognitionEvent : Type 0 where
  pub id : ℕ
  pub gate_id : ℕ
  pub device_id : Option ℕ
  pub direction : Direction
  pub plate_raw : Text
  pub plate_normalized : Option Text
  pub source_event_id : Text
  pub plate_corrected : Option Text
  pub plate_corrected_normalized : Option Text
  pub corrected_by : Option ℕ
  pub corrected_at : Option ℕ
  pub correction_note : Option Text
  pub review_status : ReviewStatus

pub data ViolationStatus : Type 0 where
  registered confirmed cancelled : ViolationStatus

pub record Violation : Type 0 where
  pub id : ℕ
  pub vehicle_id : Option ℕ
  pub plate_normalized : Option Text
  pub penalty_amount : ℕ
  pub status : ViolationStatus
  pub reviewed_by : Option ℕ
  pub reviewed_at : Option ℕ
  pub client_ref : Option Text
  pub image_file_id : Option ℕ

pub record VehicleGroup : Type 0 where
  pub id : ℕ
  pub membership_kind : Text

pub record Db : Type 0 where
  pub gates : List Gate
  pub vehicles : List Vehicle
  pub groups : List VehicleGroup
  pub permits : List AccessPermit
  pub restrictions : List VehicleRestriction
  pub recognitions : List PlateRecognitionEvent
  pub events : List AccessEvent
  pub sessions : List ParkingSession
  pub spaces : List ParkingSpace
  pub assignments : List ParkingAssignment
  pub occupancies : List ParkingOccupancy
  pub tariffs : List Tariff
  pub charges : List Charge
  pub payments : List Payment
  pub allocations : List PaymentAllocation
  pub violations : List Violation
  pub app_settings : List AppSetting
