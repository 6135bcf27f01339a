-- ===== src/Parking/Requests.antt =====
-- Any sequence of requests of backend/app/modules/parking/router.py.
use parking_system.Common.{
  ℕ, ◌≡◌, ◌≤◌, refl, sym, subst, Bool, true, not, ◌&&◌, Option, none, some, List, [], ◌∷◌, arith,
  inl, inr, Bool-cases, if◌then◌else◌, first, any, count, select, ◌==◌, is_some, is_id,
  first-none-count, first_passes, ==→eq,
}
use parking_system.Python.{Python, Text}
use parking_system.Model.{ParkingSpace, ParkingAssignment, Vehicle}
use parking_system.Store.{Db}
use parking_system.Gate.Commit.{find_assigned_space, assigned_to}
use parking_system.Parking.{
  done, not_found, conflict, integrity_error, NewSpace, SpaceUpdate, NewAssignment, Point,
  create_space, update_space, create_assignment, close_assignment, vacate, save_map_coordinates,
  is_space, active_for,
}
use parking_system.Parking.YardSpaces.{
  YardRequest, create_yard_spaces, delete_yard_space, remove_space, add_codes, codes_in,
  is_blank_code, is_of_yard, is_occupied_space,
}
use parking_system.Parking.Tidy.{IsTidy, removed-IsTidy, points-IsTidy}
use parking_system.Parking.Handlers.{
  done_same, create-IsTidy, change-IsTidy, assign-IsTidy, close-IsTidy, vacate-IsTidy, codes-IsTidy,
}

yard-IsTidy :
    (py : Python) (body : YardRequest) (id : ℕ) (d d' : Db) (a : List Text × List Text)
    → IsTidy d
    → create_yard_spaces py body id d ≡ done a d'
    → IsTidy d'
unfolding create_yard_spaces
yard-IsTidy py body id d d' a t h = by_codes (codes_in py body) h
  where
    by_codes :
        (o : Option (List Text))
        → elim o [
          | none ↦ conflict
          | some raws ↦
              if any (λ raw. not (is_blank_code py raw)) raws
              then (let (noted, spaces) = add_codes py id raws d.spaces in
                  done noted (record d { spaces = spaces }))
              else conflict
        ]
          ≡ done a d'
        → IsTidy d'
    by_codes none k = cc
    by_codes (some raws) k = elim (Bool-cases (any (λ raw. not (is_blank_code py raw)) raws)) [
      | inl some_code ↦ subst IsTidy (done_same (simp some_code at k)) (codes-IsTidy py id raws d t)
      | inr none_left ↦ cc (simp none_left at k)
    ]

remove-IsTidy :
    (s : ParkingSpace) (d d' : Db) (a : ℕ) → IsTidy d → remove_space s d ≡ done a d' → IsTidy d'
unfolding remove_space
remove-IsTidy s d d' a t h = elim (Bool-cases (not (is_of_yard s))) [
  | inl other ↦ cc (simp other at h)
  | inr yard ↦ elim (Bool-cases (is_occupied_space s)) [
    | inl taken ↦ cc (simp (yard, taken) at h)
    | inr free ↦ unassigned (first (active_for s.id) d.assignments) refl (simp (yard, free) at h)
  ]
]
  where
    unassigned :
        (o : Option ParkingAssignment)
        → first (active_for s.id) d.assignments ≡ o
        → (if is_some o
            then conflict
            else if any (λ a. a.parking_space_id == s.id) d.assignments
            then integrity_error
            else done s.id (record d { spaces = select (λ t. not (t.id == s.id)) d.spaces }))
          ≡ done a d'
        → IsTidy d'
    unassigned (some b) e k = cc
    unassigned none e k = elim (Bool-cases (any (λ a. a.parking_space_id == s.id) d.assignments)) [
      | inl named ↦ cc (simp named at k)
      | inr unnamed ↦
          subst IsTidy (done_same (simp unnamed at k))
            (removed-IsTidy d s.id (first-none-count (active_for s.id) d.assignments e) t)
    ]

delete-IsTidy :
    (id : ℕ) (d d' : Db) (a : ℕ) → IsTidy d → delete_yard_space id d ≡ done a d' → IsTidy d'
unfolding delete_yard_space
delete-IsTidy id d d' a t h = found (first (is_space id) d.spaces) h
  where
    found :
        (o : Option ParkingSpace)
        → elim o [ none ↦ not_found | some s ↦ remove_space s d ] ≡ done a d'
        → IsTidy d'
    found none k = cc
    found (some s) k = remove-IsTidy s d d' a t k

points_saved-IsTidy :
    (ps : List Point) (d d' : Db) (a : ℕ)
    → IsTidy d
    → save_map_coordinates ps d ≡ done a d'
    → IsTidy d'
unfolding save_map_coordinates
points_saved-IsTidy ps d d' a t h = subst IsTidy (done_same h) (points-IsTidy d ps t)

-- One request that is answered.
pub data Request (d d' : Db) : Type 0 where
  create :
      (body : NewSpace) (id : ℕ) (a : ParkingSpace)
      → create_space body id d ≡ done a d'
      → Request d d'
  change : (id : ℕ) (body : SpaceUpdate) (a : ℕ) → update_space id body d ≡ done a d' → Request d d'
  assign :
      (units : List ℕ) (body : NewAssignment) (id a : ℕ)
      → create_assignment units body id d ≡ done a d'
      → Request d d'
  close : (id a : ℕ) → close_assignment id d ≡ done a d' → Request d d'
  leave : (id now a : ℕ) → vacate id now d ≡ done a d' → Request d d'
  place : (ps : List Point) (a : ℕ) → save_map_coordinates ps d ≡ done a d' → Request d d'
  add_yard :
      (py : Python) (body : YardRequest) (id : ℕ) (a : List Text × List Text)
      → create_yard_spaces py body id d ≡ done a d'
      → Request d d'
  delete : (id a : ℕ) → delete_yard_space id d ≡ done a d' → Request d d'

pub data Served (start : Db) : Db → Type 0 where
  here : Served start start
  served : {d d' : Db} → Served start d → Request d d' → Served start d'

Request-IsTidy : (d d' : Db) → IsTidy d → Request d d' → IsTidy d'
Request-IsTidy d d' t (create body id a h) = create-IsTidy body id d d' a t h
Request-IsTidy d d' t (change id body a h) = change-IsTidy id body d d' a t h
Request-IsTidy d d' t (assign units body id a h) = assign-IsTidy units body id d d' a t h
Request-IsTidy d d' t (close id a h) = close-IsTidy id d d' a t h
Request-IsTidy d d' t (leave id now a h) = vacate-IsTidy id now d d' a t h
Request-IsTidy d d' t (place ps a h) = points_saved-IsTidy ps d d' a t h
Request-IsTidy d d' t (add_yard py body id a h) = yard-IsTidy py body id d d' a t h
Request-IsTidy d d' t (delete id a h) = delete-IsTidy id d d' a t h

-- From tables where codes of spaces are unique, a space has at most one active assignment, and active
-- assignments are of spaces that are there, any sequence of answered requests on spaces, assignments,
-- occupancies and the map leads to such tables again.
pub Served-IsTidy : (start : Db) {d : Db} → IsTidy start → Served start d → IsTidy d
Served-IsTidy start t here = t
Served-IsTidy start t (served {d} {d'} before r) =
    Request-IsTidy d d' (Served-IsTidy start t before) r

abbrev assigns : ℕ → ℕ → ParkingAssignment → Bool
assigns space v a = (a.parking_space_id == space) && is_id a.vehicle_id v && a.is_active

assigned_active :
    (rows : List ParkingAssignment) (space v : ℕ)
    → any (assigns space v) rows ≡ true
    → 1 ≤ count (active_for space) rows
unfolding any count
assigned_active [] space v h = cc
assigned_active (a ∷ rows) space v h = ground (arith, assigned_active rows space v)

is_id→eq : (o : Option ℕ) (v : ℕ) → is_id o v ≡ true → o ≡ some v
is_id→eq none v h = cc
is_id→eq (some u) v h = rw (==→eq u v h) refl

-- Where at most one active assignment is of a space, it is of at most one vehicle.
assigned_once :
    (rows : List ParkingAssignment) (space v w : ℕ)
    → count (active_for space) rows ≤ 1
    → any (assigns space v) rows ≡ true
    → any (assigns space w) rows ≡ true
    → v ≡ w
unfolding any count
assigned_once [] space v w one h k = cc
assigned_once (a ∷ rows) space v w one h k = ground (
  arith,
  assigned_once rows space v w,
  assigned_active rows space v,
  assigned_active rows space w,
  is_id→eq a.vehicle_id v,
  is_id→eq a.vehicle_id w,
)

-- In tidy tables the gate gives no two vehicles the same space: `find_assigned_space` finds one for at
-- most one vehicle.
pub space_is_exclusive :
    (db : Db) (v w : Vehicle) {s t : ParkingSpace}
    → IsTidy db
    → find_assigned_space db (some v) ≡ some s
    → find_assigned_space db (some w) ≡ some t
    → s.id ≡ t.id
    → v.id ≡ w.id
unfolding find_assigned_space
space_is_exclusive db v w {s} {t} tidy h k same =
    assigned_once db.assignments s.id v.id w.id (tidy.one_active s.id)
      (first_passes (assigned_to db.assignments v.id) db.spaces h)
      (subst
        (λ i.
          any (λ a. (a.parking_space_id == i) && is_id a.vehicle_id w.id && a.is_active)
            db.assignments
          ≡ true)
        (sym same) (first_passes (assigned_to db.assignments w.id) db.spaces k))
