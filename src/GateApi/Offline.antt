-- ===== src/GateApi/Offline.antt =====
-- What the gate admits by itself, by the rows of the centre that its snapshot was made from.
use parking_system.Common.{
  ℕ, ◌≡◌, ◌∙◌, refl, sym, subst, Bool, true, false, not, ◌&&◌, Option, none, some, some_same, List,
  [], ◌∷◌, map, arith, inl, inr, Bool-cases, if◌then◌else◌, first, select, any, text_eq,
}
use parking_system.Python.{Text}
use parking_system.Model.{Direction, Gate, AccessPermit, VehicleRestriction}
use parking_system.Store.{Db}
use parking_system.Vehicles.{
  is_active, is_over, restricts, has_active_restriction, permit_gate_allowed,
  permit_entries_available,
}
use parking_system.Gate.Request.{open_barrier}
use parking_system.Gate.Process.{has_code}
use parking_system.Agent.{Snapshot, AllowedPlate, allowed_entry, expired, used_up, offline_decide}
use parking_system.Agent.Offline.{MayPass, offline_opens}
use parking_system.GateApi.{offline_snapshot, is_listed, allowed_plate, in_force}

-- A permit of the plate that is active, admits to the gate, has entries left, and is not over at
-- either of two times.
abbrev pub covers : Text → ℕ → ℕ → ℕ → AccessPermit → Bool
covers plate gate_id taken now p =
    text_eq p.plate_normalized plate
    && is_active p.status
    && not (is_over p.valid_until taken)
    && not (is_over p.valid_until now)
    && permit_gate_allowed p (some gate_id)
    && (permit_entries_available p).0

module _ (plate : Text) (gate_id taken now : ℕ) where
  permit_covers :
      (p : AccessPermit)
      → is_listed gate_id taken p ≡ true
      → text_eq p.plate_normalized plate ≡ true
      → expired (allowed_plate p).valid_until now ≡ false
      → used_up (allowed_plate p) ≡ false
      → covers plate gate_id taken now p ≡ true
  unfolding permit_gate_allowed permit_entries_available used_up
  permit_covers p listed mine fresh left = ground arith

  -- One more permit in front of the list, whose entry is found in the rest, or is its own.
  entry_covers :
      (p : AccessPermit) (ps : List AccessPermit) (q : AllowedPlate) (o : Option AllowedPlate)
      → is_listed gate_id taken p ≡ true
      → expired q.valid_until now ≡ false
      → used_up q ≡ false
      → (o ≡ some q → any (covers plate gate_id taken now) ps ≡ true)
      → elim o [
        | some r ↦ some r
        | none ↦ if text_eq p.plate_normalized plate then some (allowed_plate p) else none
      ]
        ≡ some q
      → any (covers plate gate_id taken now) (p ∷ ps) ≡ true
  unfolding any
  entry_covers p ps q (some r) listed fresh left rest e = ground (arith, rest e)
  entry_covers p ps q none listed fresh left rest e =
      elim (Bool-cases (text_eq p.plate_normalized plate)) [
        | inr other ↦ cc (simp other at e)
        | inl mine ↦
            let same = some_same (simp mine at e) in
            ground (
              arith,
              permit_covers p listed mine
                  (subst (λ r. expired r.valid_until now ≡ false) (sym same) fresh)
                  (subst (λ r. used_up r ≡ false) (sym same) left),
            )
      ]

  -- What the gate finds in the list was a permit that covers the plate.
  found_covers :
      (ps : List AccessPermit) {q : AllowedPlate}
      → allowed_entry plate (map allowed_plate (select (is_listed gate_id taken) ps)) ≡ some q
      → expired q.valid_until now ≡ false
      → used_up q ≡ false
      → any (covers plate gate_id taken now) ps ≡ true
  unfolding allowed_entry select any
  found_covers [] found fresh left = cc
  found_covers (p ∷ ps) {q} found fresh left = elim (Bool-cases (is_listed gate_id taken p)) [
    | inr other ↦ ground (arith, found_covers ps (simp other at found) fresh left)
    | inl listed ↦
        entry_covers p ps q
          (allowed_entry plate (map allowed_plate (select (is_listed gate_id taken) ps))) listed
          fresh left (λ k. found_covers ps k fresh left) (simp listed at found)
  ]

not_restricted :
    (plate : Text) (taken : ℕ) (rs : List VehicleRestriction)
    → any (λ t. text_eq t plate) (map (λ r. r.plate_normalized) (select (in_force taken) rs))
      ≡ false
    → first (restricts plate taken) rs ≡ none
unfolding any select first
not_restricted plate taken [] h = refl
not_restricted plate taken (r ∷ rs) h = ground (arith, not_restricted plate taken rs)

-- What the database had when the snapshot was made, for an entry that the gate admits later.
pub record Covered (db : Db) (code : Text) (taken now : ℕ) (plate : Option Text) : Type 0 where
  pub read : Text
  pub is_read : plate ≡ some read
  pub gate : Gate
  pub is_gate : first (has_code code) db.gates ≡ some gate
  pub permitted : any (covers read gate.id taken now) db.permits ≡ true
  pub free : has_active_restriction db.restrictions read taken ≡ none

snapshot_covers :
    (db : Db) (code : Text) (taken now : ℕ) (plate : Option Text) (inside : Bool) (s : Snapshot)
    (gate : Gate)
    → first (has_code code) db.gates ≡ some gate
    → MayPass (some s) plate Direction.inward inside now
    → record {
      allowed_plates = map allowed_plate (select (is_listed gate.id taken) db.permits);
      restricted_plates = map (λ r. r.plate_normalized) (select (in_force taken) db.restrictions);
    }
      ≡ s
    → Covered db code taken now plate
unfolding has_active_restriction
snapshot_covers db code taken now plate inside s gate found m made =
    let same = made ∙ some_same m.has_snapshot in
    let (q, entry, fresh, left) = m.listed in
    record {
      read = m.read;
      is_read = m.is_read;
      gate = gate;
      is_gate = found;
      permitted =
          found_covers m.read gate.id taken now db.permits
            (subst (λ t. allowed_entry m.read t.allowed_plates ≡ some q) (sym same) entry) fresh
            left;
      free = not_restricted m.read taken db.restrictions (
          subst (λ t. any (λ r. text_eq r m.read) t.restricted_plates ≡ false) (sym same)
            m.not_restricted);
    }

-- Where a gate with a snapshot of the centre opens to an entry by itself, the centre's database had at
-- the time of the snapshot an active permit of the plate that admits to this gate, had entries left,
-- and is over neither then nor now, and no restriction of the plate was in force.
pub offline-Covered :
    (db : Db) (code : Text) (taken now : ℕ) (plate : Option Text) (inside : Bool) {s : Snapshot}
    → offline_snapshot db code taken ≡ some s
    → (offline_decide (some s) plate Direction.inward inside now).barrier_action ≡ open_barrier
    → Covered db code taken now plate
unfolding offline_snapshot
offline-Covered db code taken now plate inside {s} made opens =
    at_gate (first (has_code code) db.gates) refl made
  where
    at_gate :
        (o : Option Gate)
        → first (has_code code) db.gates ≡ o
        → elim o [
          | none ↦ none
          | some gate ↦ some (record {
            allowed_plates = map allowed_plate (select (is_listed gate.id taken) db.permits);
            restricted_plates =
                map (λ r. r.plate_normalized) (select (in_force taken) db.restrictions);
          })
        ]
          ≡ some s
        → Covered db code taken now plate
    at_gate none found e = cc
    at_gate (some gate) found e =
        snapshot_covers db code taken now plate inside s gate found
          (offline_opens (some s) plate Direction.inward inside now opens) (some_same e)
