-- ===== src/Agent/Offline.antt =====
-- The decision that the gate takes by itself.
use parking_system.Common.{
  ℕ, ◌≡◌, ◌⊎◌, refl, Bool, true, false, Option, none, some, arith, inl, inr, Bool-cases, any,
  text_eq, is_some,
}
use parking_system.Python.{Text}
use parking_system.Model.{Decision, Direction}
use parking_system.Gate.Request.{open_barrier}
use parking_system.Agent.{
  Snapshot, AllowedPlate, allowed_entry, expired, used_up, offline_entry, offline_direction,
  offline_decide,
}

-- What an entry or an exit needs in the snapshot: for an entry, an allowed plate whose permit has
-- not expired and has entries left; for an exit, an entry seen at this gate or an allowed plate.
abbrev pub Listed : Direction → Snapshot → Text → Bool → ℕ → Type 0
Listed Direction.inward snapshot plate inside now =
    (p : AllowedPlate) × (allowed_entry plate snapshot.allowed_plates ≡ some p)
    × (expired p.valid_until now ≡ false)
    × (used_up p ≡ false)
Listed Direction.outward snapshot plate inside now =
    (inside ≡ true) ⊎ (is_some (allowed_entry plate snapshot.allowed_plates) ≡ true)

-- The conditions under which the gate may open by itself.
pub record MayPass (snapshot : Option Snapshot) (plate : Option Text) (direction : Direction)
    (inside : Bool) (now : ℕ) : Type 0 where
  pub known : Snapshot
  pub has_snapshot : snapshot ≡ some known
  pub read : Text
  pub is_read : plate ≡ some read
  pub not_restricted : any (λ t. text_eq t read) known.restricted_plates ≡ false
  pub listed : Listed direction known read inside now

entry_opens :
    (o : Option AllowedPlate) (now : ℕ)
    → (offline_entry o now).barrier_action ≡ open_barrier
    → (p : AllowedPlate) × (o ≡ some p) × (expired p.valid_until now ≡ false) × (used_up p ≡ false)
unfolding offline_entry
entry_opens none now h = ground arith
entry_opens (some p) now h = (p, refl, ground arith, ground arith)

direction_opens :
    (d : Direction) (s : Snapshot) (plate : Text) (inside : Bool) (now : ℕ)
    → (offline_direction s plate d inside now).barrier_action ≡ open_barrier
    → Listed d s plate inside now
unfolding offline_direction
direction_opens Direction.inward s plate inside now h =
    entry_opens (allowed_entry plate s.allowed_plates) now h
direction_opens Direction.outward s plate inside now h = ground arith

-- The gate opens by itself only with a snapshot, for a plate that it reads and that is not restricted:
-- to an entry whose permit in the snapshot has not expired and has entries left, to an exit that it
-- let in or whose plate is allowed.
pub offline_opens :
    (snapshot : Option Snapshot) (plate : Option Text) (d : Direction) (inside : Bool) (now : ℕ)
    → (offline_decide snapshot plate d inside now).barrier_action ≡ open_barrier
    → MayPass snapshot plate d inside now
unfolding offline_decide
offline_opens none plate d inside now h = ground arith
offline_opens (some s) none d inside now h = ground arith
offline_opens (some s) (some plate) d inside now h =
    elim (Bool-cases (any (λ t. text_eq t plate) s.restricted_plates)) [
      | inl barred ↦ cc (simp barred at h)
      | inr free ↦ record {
        known = s;
        has_snapshot = refl;
        read = plate;
        is_read = refl;
        not_restricted = free;
        listed = direction_opens d s plate inside now (simp free at h);
      }
    ]

direction_admits :
    (d : Direction) (s : Snapshot) (plate : Text) (inside : Bool) (now : ℕ)
    → Listed d s plate inside now
    → (offline_direction s plate d inside now).decision ≡ Decision.offline_allow
unfolding offline_direction offline_entry
direction_admits Direction.inward s plate inside now (p, found, fresh, left) =
    rw (found, fresh, left) refl
direction_admits Direction.outward s plate inside now h = ground arith

-- Where these conditions hold, it does let the vehicle pass.
pub offline_admits :
    (snapshot : Option Snapshot) (plate : Option Text) (d : Direction) (inside : Bool) (now : ℕ)
    → MayPass snapshot plate d inside now
    → (offline_decide snapshot plate d inside now).decision ≡ Decision.offline_allow
unfolding offline_decide
offline_admits snapshot plate d inside now m =
    rw (m.has_snapshot, m.is_read, m.not_restricted)
      (direction_admits d m.known m.read inside now m.listed)
