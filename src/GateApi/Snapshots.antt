-- ===== src/GateApi/Snapshots.antt =====
-- `offline_snapshot`: the permits and restrictions that a gate gets to decide by itself.
use parking_system.Common.{
  ℕ, Bool, true, not, ◌&&◌, Option, none, some, List, map, first, select, any, ◌==◌,
}
use parking_system.Python.{Text}
use parking_system.Model.{AccessPermit, VehicleRestriction, Decoded, absent, decoded}
use parking_system.Store.{Db}
use parking_system.Vehicles.{is_active, is_over}
use parking_system.Gate.Process.{has_code}
use parking_system.Agent.{AllowedPlate, Snapshot}

-- A list of gates that cannot be read is passed over.
abbrev pub for_gate : Decoded (List ℕ) → ℕ → Bool
for_gate (decoded ids) gate_id = any (λ x. x == gate_id) ids
for_gate _ gate_id = true

-- The permits that the loop keeps.
abbrev pub is_listed : ℕ → ℕ → AccessPermit → Bool
is_listed gate_id now p =
    is_active p.status && not (is_over p.valid_until now) && for_gate p.allowed_gate_ids gate_id

abbrev pub iso_time : Option ℕ → Decoded ℕ
iso_time none = absent
iso_time (some t) = decoded t

abbrev pub allowed_plate : AccessPermit → AllowedPlate
allowed_plate p = record {
  plate = p.plate_normalized;
  valid_until = iso_time p.valid_until;
  max_entries = p.max_entries;
  used_entries = some p.used_entries;
}

-- A restriction that has not begun yet is listed too.
abbrev pub in_force : ℕ → VehicleRestriction → Bool
in_force now r = is_active r.status && not (is_over r.ends_at now)

unfoldable pub offline_snapshot : Db → Text → ℕ → Option Snapshot
offline_snapshot db gate_code now = elim (first (has_code gate_code) db.gates) [
  | none ↦ none
  | some gate ↦ some (record {
    allowed_plates = map allowed_plate (select (is_listed gate.id now) db.permits);
    restricted_plates = map (λ r. r.plate_normalized) (select (in_force now) db.restrictions);
  })
]
