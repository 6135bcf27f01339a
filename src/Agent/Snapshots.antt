-- ===== src/Agent/Snapshots.antt =====
-- decision.py of gate-agent/agent: the decision on the last snapshot.
use parking_system.Common.{
  ℕ, Bool, false, ◌||◌, Option, none, some, List, [], ◌∷◌, ltb, leb, if◌then◌else◌, any, text_eq,
  is_some,
}
use parking_system.Python.{Text}
use parking_system.Model.{Decision, Direction, Decoded, decoded}
use parking_system.Gate.Request.{BarrierAction, open_barrier, keep_closed}

-- An entry of the snapshot's `allowed_plates`.
pub record AllowedPlate : Type 0 where
  pub plate : Text
  pub valid_until : Decoded ℕ
  pub max_entries : Option ℕ
  pub used_entries : Option ℕ

pub record Snapshot : Type 0 where
  pub allowed_plates : List AllowedPlate
  pub restricted_plates : List Text

pub data OfflineReason : Type 0 where
  no_local_snapshot plate_not_readable plate_restricted offline_exit_ok : OfflineReason
  no_local_entry_record plate_not_in_snapshot permit_expired : OfflineReason
  permit_max_entries_reached plate_in_local_snapshot : OfflineReason

pub record OfflineDecision : Type 0 where
  pub decision : Decision
  pub decision_reason : OfflineReason
  pub barrier_action : BarrierAction

abbrev pub review : OfflineReason → OfflineDecision
review r = record {
  decision = Decision.offline_require_review;
  decision_reason = r;
  barrier_action = keep_closed;
}

abbrev pub admit : OfflineReason → OfflineDecision
admit r = record {
  decision = Decision.offline_allow;
  decision_reason = r;
  barrier_action = open_barrier;
}

-- The dict `allowed`: of two entries for a plate, the later one.
unfoldable pub allowed_entry : Text → List AllowedPlate → Option AllowedPlate
allowed_entry plate [] = none
allowed_entry plate (p ∷ ps) = elim (allowed_entry plate ps) [
  | some q ↦ some q
  | none ↦ if text_eq p.plate plate then some p else none
]

-- A `valid_until` that cannot be read is passed over.
abbrev pub expired : Decoded ℕ → ℕ → Bool
expired (decoded until) now = ltb until now
expired _ now = false

abbrev pub or_none : Option ℕ → ℕ
or_none none = 0
or_none (some n) = n

unfoldable pub used_up : AllowedPlate → Bool
used_up p = elim p.max_entries [ none ↦ false | some m ↦ leb m (or_none p.used_entries) ]

-- The part for an entry.
unfoldable pub offline_entry : Option AllowedPlate → ℕ → OfflineDecision
offline_entry none now = review plate_not_in_snapshot
offline_entry (some permit) now =
    if expired permit.valid_until now
    then review permit_expired
    else if used_up permit
    then review permit_max_entries_reached
    else admit plate_in_local_snapshot

-- The part for a plate that is readable and not restricted.
unfoldable pub offline_direction : Snapshot → Text → Direction → Bool → ℕ → OfflineDecision
unfolding offline_entry
offline_direction snapshot plate Direction.outward locally_inside now =
    if locally_inside || is_some (allowed_entry plate snapshot.allowed_plates)
    then admit offline_exit_ok
    else review no_local_entry_record
offline_direction snapshot plate Direction.inward locally_inside now =
    offline_entry (allowed_entry plate snapshot.allowed_plates) now

unfoldable pub offline_decide :
    Option Snapshot → Option Text → Direction → Bool → ℕ → OfflineDecision
unfolding offline_direction
offline_decide none plate direction locally_inside now = review no_local_snapshot
offline_decide (some snapshot) none direction locally_inside now = review plate_not_readable
offline_decide (some snapshot) (some plate) direction locally_inside now =
    if any (λ t. text_eq t plate) snapshot.restricted_plates
    then review plate_restricted
    else offline_direction snapshot plate direction locally_inside now
