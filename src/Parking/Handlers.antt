-- ===== src/Parking/Handlers.antt =====
-- backend/app/modules/parking/router.py: each request keeps the tables tidy.
use parking_system.Common.{
  ℕ, ◌≡◌, refl, subst, false, not, Option, none, some, List, [], ◌∷◌, ◌++◌, inl, inr, Bool-cases,
  if◌then◌else◌, first, any, update, ◌==◌, is_some, ◌+◌, first-some-count, first-none-count,
  any-none-count,
}
use parking_system.Python.{Python, Text, strip}
use parking_system.Model.{ParkingSpace, ParkingAssignment, ParkingOccupancy, OccupancyStatus}
use parking_system.Store.{Db}
use parking_system.Parking.{
  done, not_found, conflict, integrity_error, NewSpace, SpaceUpdate, NewAssignment, create_space,
  update_space, create_assignment, assign, close_assignment, vacate, is_space, has_space_code,
  active_for, new_space, new_assignment, breaks_column, patched_space, is_there, freed_space,
}
use parking_system.Parking.YardSpaces.{add_codes, kind_of, with_code, yard_space}
use parking_system.Parking.Tidy.{
  IsTidy, update-IsTidy, added-IsTidy, assigned-IsTidy, closed-IsTidy, freed-IsTidy,
}

pub done_same : {A : Type 0} {a b : A} {d e : Db} → done a d ≡ done b e → d ≡ e
done_same h = cc

pub create-IsTidy :
    (body : NewSpace) (id : ℕ) (d d' : Db) (a : ParkingSpace)
    → IsTidy d
    → create_space body id d ≡ done a d'
    → IsTidy d'
unfolding create_space
create-IsTidy body id d d' a t h = by_code (first (has_space_code body.code) d.spaces) refl h
  where
    by_code :
        (o : Option ParkingSpace)
        → first (has_space_code body.code) d.spaces ≡ o
        → (if is_some o
            then integrity_error
            else done
                (new_space body id)
                (record d { spaces = d.spaces ++ new_space body id ∷ [] }))
          ≡ done a d'
        → IsTidy d'
    by_code (some s) e k = cc
    by_code none e k = subst IsTidy (done_same k) (
        added-IsTidy d (new_space body id) (first-none-count (has_space_code body.code) d.spaces e)
          t)

pub change-IsTidy :
    (id : ℕ) (body : SpaceUpdate) (d d' : Db) (a : ℕ)
    → IsTidy d
    → update_space id body d ≡ done a d'
    → IsTidy d'
unfolding update_space
change-IsTidy id body d d' a t h = found (first (is_space id) d.spaces) h
  where
    found :
        (o : Option ParkingSpace)
        → elim o [
          | none ↦ not_found
          | some s ↦
              if breaks_column body
              then integrity_error
              else done id
                  (record d { spaces = update (is_space id) (patched_space body) d.spaces })
        ]
          ≡ done a d'
        → IsTidy d'
    found none k = cc
    found (some s) k = elim (Bool-cases (breaks_column body)) [
      | inl bad ↦ cc (simp bad at k)
      | inr fine ↦
          subst IsTidy (done_same (simp fine at k))
            (update-IsTidy d id (patched_space body) (λ s. refl) (λ s. refl) t)
    ]

pub assign-IsTidy :
    (units : List ℕ) (body : NewAssignment) (id : ℕ) (d d' : Db) (a : ℕ)
    → IsTidy d
    → create_assignment units body id d ≡ done a d'
    → IsTidy d'
unfolding create_assignment assign
assign-IsTidy units body id d d' a t h =
    by_space (first (is_space body.parking_space_id) d.spaces) refl h
  where
    free_space :
        (s : ParkingSpace) (o : Option ParkingAssignment)
        → first (is_space body.parking_space_id) d.spaces ≡ some s
        → first (active_for body.parking_space_id) d.assignments ≡ o
        → (if not s.is_active
            then conflict
            else if is_some o
            then conflict
            else if not (is_there (λ k v. v.id == k) body.vehicle_id d.vehicles)
            then not_found
            else if not (is_there (λ k u. u == k) body.unit_id units)
            then not_found
            else done id (record d { assignments = d.assignments ++ new_assignment body id ∷ [] }))
          ≡ done a d'
        → IsTidy d'
    free_space s (some b) there e k = elim (Bool-cases (not s.is_active)) [
      | inl off ↦ cc (simp off at k)
      | inr on ↦ cc (simp on at k)
    ]
    free_space s none there e k = elim (Bool-cases (not s.is_active)) [
      | inl off ↦ cc (simp off at k)
      | inr on ↦ elim (Bool-cases (not (is_there (λ k v. v.id == k) body.vehicle_id d.vehicles))) [
        | inl no_vehicle ↦ cc (simp (on, no_vehicle) at k)
        | inr vehicle ↦ elim (Bool-cases (not (is_there (λ k u. u == k) body.unit_id units))) [
          | inl no_unit ↦ cc (simp (on, vehicle, no_unit) at k)
          | inr unit ↦ subst IsTidy (done_same (simp (on, vehicle, unit) at k)) (
              assigned-IsTidy d (new_assignment body id)
                (first-some-count (is_space body.parking_space_id) d.spaces there)
                (first-none-count (active_for body.parking_space_id) d.assignments e) t)
        ]
      ]
    ]

    by_space :
        (o : Option ParkingSpace)
        → first (is_space body.parking_space_id) d.spaces ≡ o
        → elim o [ none ↦ not_found | some s ↦ assign units body id d s ] ≡ done a d'
        → IsTidy d'
    by_space none e k = cc
    by_space (some s) e k =
        free_space s (first (active_for body.parking_space_id) d.assignments) e refl k

pub close-IsTidy :
    (id : ℕ) (d d' : Db) (a : ℕ) → IsTidy d → close_assignment id d ≡ done a d' → IsTidy d'
unfolding close_assignment
close-IsTidy id d d' a t h = found (first (λ a. a.id == id) d.assignments) h
  where
    found :
        (o : Option ParkingAssignment)
        → elim o [
          | none ↦ not_found
          | some a ↦ done id (record d {
            assignments =
                update (λ a. a.id == id) (λ a. record a { is_active = false }) d.assignments;
          })
        ]
          ≡ done a d'
        → IsTidy d'
    found none k = cc
    found (some b) k = subst IsTidy (done_same k) (closed-IsTidy d id t)

pub vacate-IsTidy :
    (id now : ℕ) (d d' : Db) (a : ℕ) → IsTidy d → vacate id now d ≡ done a d' → IsTidy d'
unfolding vacate
vacate-IsTidy id now d d' a t h = found (first (λ o. o.id == id) d.occupancies) h
  where
    found :
        (o : Option ParkingOccupancy)
        → elim o [
          | none ↦ not_found
          | some o ↦ done id (record d {
            occupancies =
                update
                  (λ p. p.id == id)
                  (λ p. record p { status = OccupancyStatus.vacated; vacated_at = some now })
                  d.occupancies;
            spaces = freed_space o.parking_space_id d.spaces;
          })
        ]
          ≡ done a d'
        → IsTidy d'
    found none k = cc
    found (some o) k =
        let f = freed-IsTidy d o.parking_space_id t in
        subst IsTidy (done_same k)
          (record { codes = f.codes; one_active = f.one_active; placed = f.placed })

pub codes-IsTidy :
    (py : Python) (id : ℕ) (raws : List Text) (d : Db)
    → IsTidy d
    → IsTidy (record d { spaces = (add_codes py id raws d.spaces).1 })
unfolding add_codes
codes-IsTidy py id [] d t = record { codes = t.codes; one_active = t.one_active; placed = t.placed }
codes-IsTidy py id (raw ∷ raws) d t =
    codes-IsTidy py (id + 1) raws
      (record d { spaces = with_code (kind_of (strip py raw) d.spaces) (strip py raw) id d.spaces })
      (one_code (strip py raw))
  where
    one_code :
        (code : Text)
        → IsTidy (record d { spaces = with_code (kind_of code d.spaces) code id d.spaces })
    one_code [] = record { codes = t.codes; one_active = t.one_active; placed = t.placed }
    one_code (c ∷ s) = elim (Bool-cases (any (has_space_code (c ∷ s)) d.spaces)) [
      | inl known ↦
          rw known (record { codes = t.codes; one_active = t.one_active; placed = t.placed })
      | inr fresh ↦ rw fresh (
          added-IsTidy d (yard_space (c ∷ s) id)
            (any-none-count (has_space_code (c ∷ s)) d.spaces fresh) t)
    ]
