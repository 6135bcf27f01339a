-- ===== src/Tests/Fixtures.antt =====
-- A small parking lot: one gate, one vehicle with a permit, a tariff.
use parking_system.Common.{
  ℕ, ◌+◌, ◌-◌, ◌*◌, refl, true, false, Option, none, some, [], ◌∷◌, if◌then◌else◌,
}
use parking_system.Common.Int.{ℤ, pos}
use parking_system.Python.{Python, Text, codes, is_digit, is_lower, is_blank}
use parking_system.Model.{
  Direction, Vehicle, AccessPermit, VehicleRestriction, ActiveStatus, Decoded, Gate, Tariff,
  TariffStatus, Charge, ChargeStatus, ChargeType,
}
use parking_system.Settings.{Environment, text}
use parking_system.Store.{Db}
use parking_system.Gate.Request.{Config, Request}

-- Python's tables, cut down to ASCII.
pub digits_value : ℕ → Text → Option ℤ
digits_value n [] = some (pos n)
digits_value n (c ∷ s) =
    let rest = digits_value (n * 10 + (c - 48)) s in if is_digit c then rest else none

abbrev pub ascii : Python
ascii = record {
  is_space = is_blank;
  is_decimal = is_digit;
  is_digit_char = is_digit;
  upper = λ c. (if is_lower c then c - 32 else c) ∷ [];
  lower = λ t. t;
  parse_int = digits_value 0;
  space_ascii = λ c h. refl;
  decimal_ascii = λ c h. refl;
  digit_ascii = λ c h. refl;
  upper_ascii = λ c h. refl;
}

abbrev pub environment : Environment
environment = record {
  exit_unpaid_policy = text (codes "WARN");
  tariff_rounding = text (codes "HOUR_UP");
  tariff_day_definition = text (codes "24H");
  night_tariff_enabled = false;
  night_start_hour = pos 22;
  night_end_hour = pos 6;
  min_charge_amount = pos 0;
  exit_grace_minutes = pos 20;
  self_approval_policy = text (codes "WARN");
  voided_report_mode = text (codes "SEPARATE");
  yard_capacity_total = none;
}

abbrev pub config : Config
config = record {
  py = ascii;
  env = environment;
  wall_clock = λ t. t;
  thresholds = record {
    max_angle_deg = pos 35000;
    min_lux = pos 20000;
    max_speed_kmh = pos 20000;
    low_conf = pos 700;
  };
  low_conf = pos 700;
  letter_mapping = codes "MANY_TO_ONE";
  rules = [];
}

abbrev pub plate : Text
plate = codes "12B345IR67"

abbrev pub noon : ℕ
noon = 63800000000 * 1000000

abbrev pub request : Request
request = record {
  gate_code = codes "G1";
  direction = Direction.inward;
  plate_raw = plate;
  source_event_id = codes "s1";
  device_id = none;
  captured_at = none;
  confidence = some (pos 900);
  is_manual = false;
  operator_id = none;
  offline_created = false;
  idempotency_key = none;
  client_decision = none;
  dry_run = false;
  driver_request = none;
  quality = record { angle_deg = none; lux = none; speed_kmh = none };
  now = noon;
  now_closing = noon;
  now_rules = noon;
  fresh = 100;
}

abbrev pub gate : Gate
gate = record {
  id = 1;
  code = codes "G1";
  status = codes "OFFLINE";
  last_seen_at = none;
  agent_version = none;
}

abbrev pub vehicle : Vehicle
vehicle = record {
  id = 2;
  unit_id = some 3;
  vehicle_group_id = none;
  plate_raw = plate;
  plate_normalized = plate;
  plate_type = codes "PERSONAL";
  vehicle_type = codes "CAR";
  brand = none;
  model = none;
  color = none;
  year = none;
  notes = none;
  created_at = 0;
  is_active = true;
}

abbrev pub permit : AccessPermit
permit = record {
  id = 4;
  vehicle_id = some 2;
  permit_type = codes "PERMANENT";
  plate_normalized = plate;
  valid_from = none;
  valid_until = none;
  allowed_days = Decoded.absent;
  allowed_from_time = none;
  allowed_until_time = none;
  max_entries = some 5;
  used_entries = 1;
  allowed_gate_ids = Decoded.absent;
  status = ActiveStatus.active;
  created_at = 0;
}

abbrev pub tariff : Tariff
tariff = record {
  id = 5;
  free_minutes = 30;
  hourly_amount = 1000;
  daily_max_amount = some 5000;
  night_amount = none;
  valid_from = none;
  valid_until = none;
  priority = 0;
  created_at = 0;
  status = TariffStatus.active;
  approved_by = none;
  approved_at = none;
}

abbrev pub lot : Db
lot = record {
  gates = gate ∷ [];
  vehicles = vehicle ∷ [];
  groups = [];
  permits = permit ∷ [];
  restrictions = [];
  recognitions = [];
  events = [];
  sessions = [];
  spaces = [];
  assignments = [];
  occupancies = [];
  tariffs = tariff ∷ [];
  charges = [];
  payments = [];
  allocations = [];
  violations = [];
  app_settings = [];
}

abbrev pub banned : VehicleRestriction
banned = record {
  plate_normalized = plate;
  starts_at = none;
  ends_at = none;
  status = ActiveStatus.active;
}

abbrev pub charge_of : ℕ → ℕ → Charge
charge_of id amount = record {
  id = id;
  parking_session_id = none;
  violation_id = none;
  charge_type = ChargeType.parking;
  amount = amount;
  paid_amount = pos 0;
  status = ChargeStatus.unpaid;
  created_at = id;
}
