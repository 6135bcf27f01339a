-- ===== src/VehicleSync/Protection.antt =====
-- What a synchronization never touches.
use parking_system.Common.{
  ℕ, ◌+◌, ◌≡◌, refl, sym, ◌∙◌, ap, Bool, true, false, Option, none, some, List, [], ◌∷◌, ◌++◌, map,
  append_assoc, append-nil, inl, inr, Bool-cases, update, any,
}
use parking_system.Python.{Text, codes, upper_all}
use parking_system.Model.{Vehicle, AccessPermit}
use parking_system.Store.{Db}
use parking_system.VehicleSync.Cells.{Cell, get, truthy, method_text}
use parking_system.VehicleSync.Tables.{
  ExternalRef, ConflictType, SyncConflict, SyncDb, SyncConfig, Row, add_conflict, RowEnd, created,
  updated, skipped, raised, broken,
}
use parking_system.VehicleSync.Permits.{
  maybe_permit, permit_of_type, permit_conflict, add_permit, mine,
}
use parking_system.VehicleSync.Create.{with_vehicle}
use parking_system.VehicleSync.Change.{put_vehicle}

-- What identifies a vehicle, and what the residents and the operators wrote of it.
abbrev pub identity : Vehicle → ℕ × Option ℕ × Option ℕ × Text × Text × Text × Text × Option Text
identity v = (
  v.id, v.unit_id, v.vehicle_group_id, v.plate_raw, v.plate_normalized, v.plate_type,
  v.vehicle_type, v.notes,
)

-- One list begins with another.
abbrev pub Extends {ℓ} : {A : Type ℓ} → List A → List A → Type ℓ
Extends {A} xs ys = (new : List A) × (ys ≡ xs ++ new)

-- Only vehicles, permits, references and conflicts may differ: permits and conflicts are added behind
-- those that were there, and vehicles too, of which the others keep their identity.
pub record Protects (d e : SyncDb) : Type 0 where
  pub others : e.db ≡ record d.db { vehicles = e.db.vehicles; permits = e.db.permits }
  pub permits : Extends d.db.permits e.db.permits
  pub vehicles : Extends (map identity d.db.vehicles) (map identity e.db.vehicles)
  pub conflicts : Extends d.conflicts e.conflicts

Extends-refl {ℓ} : {A : Type ℓ} (xs : List A) → Extends xs xs
Extends-refl xs = ([], sym (append-nil xs))

Extends-trans {ℓ} : {A : Type ℓ} (xs ys zs : List A) → Extends xs ys → Extends ys zs → Extends xs zs
Extends-trans xs ys zs (a, h) (b, k) = (a ++ b, k ∙ (ap (λ l. l ++ b) h ∙ append_assoc xs a b))

pub Protects-refl : (d : SyncDb) → Protects d d
Protects-refl d = record {
  others = refl;
  permits = Extends-refl d.db.permits;
  vehicles = Extends-refl (map identity d.db.vehicles);
  conflicts = Extends-refl d.conflicts;
}

pub Protects-trans : (a b c : SyncDb) → Protects a b → Protects b c → Protects a c
Protects-trans a b c f g = record {
  others =
      g.others
      ∙ ap {A = Db} (λ d. record d { vehicles = c.db.vehicles; permits = c.db.permits }) f.others;
  permits = Extends-trans a.db.permits b.db.permits c.db.permits f.permits g.permits;
  vehicles =
      Extends-trans (map identity a.db.vehicles) (map identity b.db.vehicles)
        (map identity c.db.vehicles) f.vehicles g.vehicles;
  conflicts = Extends-trans a.conflicts b.conflicts c.conflicts f.conflicts g.conflicts;
}

-- A predicate of the database that a row leaves.
abbrev pub Ends : (SyncDb → Type 0) → RowEnd → Type 0
Ends P (created d) = P d
Ends P (updated d) = P d
Ends P (skipped d) = P d
Ends P (raised d) = P d
Ends P broken = Unit

map-append :
    (vs : List Vehicle) (v : Vehicle)
    → map identity (vs ++ v ∷ []) ≡ map identity vs ++ identity v ∷ []
map-append [] v = refl
map-append (w ∷ vs) v = ap (λ l. identity w ∷ l) (map-append vs v)

identity-update :
    (p : Vehicle → Bool) (f : Vehicle → Vehicle) (vs : List Vehicle)
    → ((v : Vehicle) → identity (f v) ≡ identity v)
    → map identity (update p f vs) ≡ map identity vs
unfolding update
identity-update p f [] h = refl
identity-update p f (v ∷ vs) h = elim (Bool-cases (p v)) [
  | inl hit ↦ rw (hit, h v, identity-update p f vs h) refl
  | inr miss ↦ rw (miss, identity-update p f vs h) refl
]

conflicts-Protects :
    (k : SyncConflict) (d : SyncDb) → Protects d (record d { conflicts = d.conflicts ++ k ∷ [] })
conflicts-Protects k d = record {
  others = refl;
  permits = Extends-refl d.db.permits;
  vehicles = Extends-refl (map identity d.db.vehicles);
  conflicts = (k ∷ [], refl);
}

pub conflict-Protects :
    (dry : Bool) (r : Row) (t : ConflictType) (d : SyncDb) → Protects d (add_conflict dry r t d)
unfolding add_conflict
conflict-Protects true r t d = Protects-refl d
conflict-Protects false r t d = conflicts-Protects _ d

permit-Protects :
    (d : SyncDb) (p : AccessPermit)
    → Protects d (record d { db = record d.db { permits = d.db.permits ++ p ∷ [] } })
permit-Protects d p = record {
  others = refl;
  permits = (p ∷ [], refl);
  vehicles = Extends-refl (map identity d.db.vehicles);
  conflicts = Extends-refl d.conflicts;
}

vehicles-Protects :
    (d : SyncDb) (vs : List Vehicle)
    → Extends (map identity d.db.vehicles) (map identity vs)
    → Protects d (record d { db = record d.db { vehicles = vs } })
vehicles-Protects d vs h = record {
  others = refl;
  permits = Extends-refl d.db.permits;
  vehicles = h;
  conflicts = Extends-refl d.conflicts;
}

pub put-Protects : (v : Vehicle) (d : SyncDb) → Protects d (put_vehicle v d)
put-Protects v d =
    vehicles-Protects d (put_vehicle v d).db.vehicles
      ([], identity-update _ _ d.db.vehicles (λ w. refl) ∙ sym (append-nil _))

pub new-Protects : (v : Vehicle) (d : SyncDb) → Protects d (with_vehicle v d)
new-Protects v d = vehicles-Protects d _ (identity v ∷ [], map-append d.db.vehicles v)

pub refs-Protects : (d : SyncDb) (refs : List ExternalRef) → Protects d (record d { refs = refs })
refs-Protects d refs = record {
  others = refl;
  permits = Extends-refl d.db.permits;
  vehicles = Extends-refl (map identity d.db.vehicles);
  conflicts = Extends-refl d.conflicts;
}

-- An end of a row keeps what its database has kept.
abbrev pub EndsAt : SyncDb → (SyncDb → RowEnd) → Type 0
EndsAt start end = (d : SyncDb) → Protects start d → Ends (Protects start) (end d)

module _ (start : SyncDb) (end : SyncDb → RowEnd) (ends : EndsAt start end) where
  add_permit-Protects :
      (from until : Option (Option ℕ)) (v : Vehicle) (t : Text) (id now : ℕ) (d : SyncDb)
      → Protects start d
      → Ends (Protects start) (add_permit end from until v t id now d)
  add_permit-Protects (some from) (some until) v t id now d h =
      ends _ (Protects-trans start d _ h (permit-Protects d _))
  add_permit-Protects (some from) none v t id now d h = h
  add_permit-Protects none until v t id now d h = h

  typed-Protects :
      (c : SyncConfig) (r : Row) (v : Vehicle) (d : SyncDb) (t : Text)
      → Protects start d
      → Ends (Protects start) (permit_of_type end c r v d t)
  unfolding permit_of_type
  typed-Protects c r v d [] h = ends d h
  typed-Protects c r v d (a ∷ s) h = elim (Bool-cases (any (mine v.id) d.db.permits)) [
    | inl has ↦
        rw has (ends _ (Protects-trans start d _ h (conflicts-Protects (permit_conflict r) d)))
    | inr lacks ↦ rw lacks (add_permit-Protects _ _ v (a ∷ s) (r.fresh + 1) c.now d h)
  ]

  pub maybe_permit-Protects :
      (c : SyncConfig) (r : Row) (v : Vehicle) (d : SyncDb)
      → Protects start d
      → Ends (Protects start) (maybe_permit end c r v d)
  unfolding maybe_permit
  maybe_permit-Protects c r v d h = cell (truthy (get (codes "permit_type") r.rec))
    where
      cell :
          (o : Option Cell)
          → Ends (Protects start) (elim o [
            | none ↦ end d
            | some k ↦ elim (method_text k) [
              | none ↦ raised d
              | some t ↦ permit_of_type end c r v d (upper_all c.py t)
            ]
          ])
      cell none = ends d h
      cell (some (Cell.words t)) = typed-Protects c r v d (upper_all c.py t) h
      cell (some (Cell.value b t)) = h
