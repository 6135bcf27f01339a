-- ===== src/Model.antt =====
-- The rows and the enumerations that the modules share: backend/app/shared/enums.py and the
-- models of vehicles, access_control, finance, parking, devices and violations. Identifiers are
-- numbers, texts are lists of code points, instants count microseconds from 0001-01-01T00:00Z.
-- Columns that no modelled operation reads are left out, where they only record who wrote a row.
use parking_system.Common.{ℕ, Bool, List, Option}
use parking_system.Common.Int.{ℤ}
use parking_system.Python.{Text}

pub data Decision : Type 0 where
  allow allow_with_warning require_operator_approval deny unknown_plate : Decision
  offline_allow offline_require_review : Decision

pub data EventType : Type 0 where
  entry exit manual_entry manual_exit denied_entry denied_exit barrier_open : EventType

pub data SessionStatus : Type 0 where
  opened closed cancelled requires_review : SessionStatus

pub data Direction : Type 0 where
  inward outward : Direction

pub data ActiveStatus : Type 0 where
  active inactive : ActiveStatus

-- A column that holds JSON: not set, not readable as JSON, or a value.
pub data Decoded (A : Type 0) : Type 0 where
  absent unreadable : Decoded A
  decoded : A → Decoded A

pub record Vehicle : Type 0 where
  pub id : ℕ
  pub unit_id : Option ℕ
  pub vehicle_group_id : Option ℕ
  pub plate_raw : Text
  pub plate_normalized : Text
  pub plate_type : Text
  pub vehicle_type : Text
  pub brand : Option Text
  pub model : Option Text
  pub color : Option Text
  pub year : Option ℤ
  pub notes : Option Text
  pub created_at : ℕ
  pub is_active : Bool

pub record AccessPermit : Type 0 where
  pub id : ℕ
  pub vehicle_id : Option ℕ
  pub permit_type : Text
  pub plate_normalized : Text
  pub valid_from : Option ℕ
  pub valid_until : Option ℕ
  pub allowed_days : Decoded (List ℕ)
  pub allowed_from_time : Option Text
  pub allowed_until_time : Option Text
  pub max_entries : Option ℕ
  pub used_entries : ℕ
  pub allowed_gate_ids : Decoded (List ℕ)
  pub status : ActiveStatus
  pub created_at : ℕ

pub record VehicleRestriction : Type 0 where
  pub plate_normalized : Text
  pub starts_at : Option ℕ
  pub ends_at : Option ℕ
  pub status : ActiveStatus

pub record Gate : Type 0 where
  pub id : ℕ
  pub code : Text
  pub status : Text
  pub last_seen_at : Option ℕ
  pub agent_version : Option Text

pub data PaymentStatus : Type 0 where
  unpaid paid free : PaymentStatus

pub record ParkingSession : Type 0 where
  pub id : ℕ
  pub vehicle_id : Option ℕ
  pub plate_normalized : Text
  pub entry_event_id : Option ℕ
  pub entry_at : ℕ
  pub exit_at : Option ℕ
  pub duration_seconds : Option ℕ
  pub status : SessionStatus
  pub tariff_id : Option ℕ
  pub base_amount : ℕ
  pub penalty_amount : ℕ
  pub discount_amount : ℕ
  pub final_amount : ℕ
  pub payment_status : PaymentStatus

pub data TariffStatus : Type 0 where
  active inactive draft : TariffStatus

pub record Tariff : Type 0 where
  pub id : ℕ
  pub free_minutes : ℕ
  pub hourly_amount : ℕ
  pub daily_max_amount : Option ℕ
  pub night_amount : Option ℕ
  pub valid_from : Option ℕ
  pub valid_until : Option ℕ
  pub priority : ℕ
  pub created_at : ℕ
  pub status : TariffStatus
  pub approved_by : Option ℕ
  pub approved_at : Option ℕ

pub data ChargeStatus : Type 0 where
  unpaid paid voided : ChargeStatus

pub data ChargeType : Type 0 where
  parking violation : ChargeType

-- `paid_amount` is signed: an adjustment may lower it below zero.
pub record Charge : Type 0 where
  pub id : ℕ
  pub parking_session_id : Option ℕ
  pub violation_id : Option ℕ
  pub charge_type : ChargeType
  pub amount : ℕ
  pub paid_amount : ℤ
  pub status : ChargeStatus
  pub created_at : ℕ

pub record Payment : Type 0 where
  pub id : ℕ
  pub reference_number : Text
  pub vehicle_id : Option ℕ
  pub plate_normalized : Option Text
  pub amount : ℕ
  pub is_completed : Bool
  pub paid_at : ℕ

pub record PaymentAllocation : Type 0 where
  pub payment_id : ℕ
  pub charge_id : ℕ
  pub amount : ℕ

pub data SpaceStatus : Type 0 where
  free occupied : SpaceStatus
  other_status : Text → SpaceStatus

pub data ParkingType : Type 0 where
  yard other_type : ParkingType

pub record ParkingSpace : Type 0 where
  pub id : ℕ
  pub code : Text
  pub floor : ℤ
  pub zone : Option Text
  pub parking_type : ParkingType
  pub map_x : Option ℤ
  pub map_y : Option ℤ
  pub status : SpaceStatus
  pub is_active : Bool

pub record ParkingAssignment : Type 0 where
  pub id : ℕ
  pub parking_space_id : ℕ
  pub unit_id : Option ℕ
  pub vehicle_id : Option ℕ
  pub is_active : Bool

pub data OccupancyStatus : Type 0 where
  occupied vacated : OccupancyStatus

pub record ParkingOccupancy : Type 0 where
  pub id : ℕ
  pub parking_space_id : Option ℕ
  pub vehicle_id : Option ℕ
  pub access_event_id : Option ℕ
  pub occupied_at : ℕ
  pub vacated_at : Option ℕ
  pub status : OccupancyStatus
