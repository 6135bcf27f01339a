-- ===== src/Parking/Tidy.antt =====
-- backend/app/modules/parking/router.py: what every request keeps of spaces and assignments.
use parking_system.Common.{
  ℕ, ◌≡◌, ◌≤◌, ◌+◌, refl, sym, subst, ap, false, not, Option, none, some, List, [], ◌∷◌, ◌++◌,
  arith, inl, inr, Bool-cases, update, count, select, ◌==◌, ==→eq, text_eq→eq, count-append,
  count_new, count-update, count-update_le, count-select_le, count-select_same,
}
use parking_system.Python.{Text}
use parking_system.Model.{ParkingSpace, ParkingAssignment}
use parking_system.Store.{Db}
use parking_system.Parking.{is_space, has_space_code, active_for, Point, save_points, freed_space}

-- The codes of spaces are unique, a space has at most one active assignment, and an active assignment
-- is of a space that is there.
pub record IsTidy (db : Db) : Type 0 where
  pub codes : (c : Text) → count (has_space_code c) db.spaces ≤ 1
  pub one_active : (id : ℕ) → count (active_for id) db.assignments ≤ 1
  pub placed : (id : ℕ) → count (active_for id) db.assignments ≤ count (is_space id) db.spaces

-- Spaces whose columns change, but neither identifier nor code.
pub Same-IsTidy :
    (db : Db) (spaces : List ParkingSpace)
    → ((c : Text) → count (has_space_code c) spaces ≡ count (has_space_code c) db.spaces)
    → ((id : ℕ) → count (is_space id) spaces ≡ count (is_space id) db.spaces)
    → IsTidy db
    → IsTidy (record db { spaces = spaces })
Same-IsTidy db spaces same_codes same_ids t = record {
  codes = λ c. omega (arith, same_codes c, t.codes c);
  one_active = t.one_active;
  placed = λ id. omega (arith, same_ids id, t.placed id);
}

pub update-IsTidy :
    (db : Db) (id : ℕ) (f : ParkingSpace → ParkingSpace)
    → ((s : ParkingSpace) → (f s).code ≡ s.code)
    → ((s : ParkingSpace) → (f s).id ≡ s.id)
    → IsTidy db
    → IsTidy (record db { spaces = update (is_space id) f db.spaces })
update-IsTidy db id f code_kept id_kept =
    Same-IsTidy db (update (is_space id) f db.spaces)
      (λ c.
        count-update (has_space_code c) (is_space id) f db.spaces
          (λ s. ap (λ k. has_space_code c (record s { code = k })) (code_kept s)))
      (λ k. count-update (is_space k) (is_space id) f db.spaces (λ s. ap (λ i. i == k) (id_kept s)))

-- One more space, whose code is new.
pub added-IsTidy :
    (db : Db) (s : ParkingSpace)
    → count (has_space_code s.code) db.spaces ≡ 0
    → IsTidy db
    → IsTidy (record db { spaces = db.spaces ++ s ∷ [] })
added-IsTidy db s fresh t = record {
  codes = λ c.
      count_new has_space_code s.code c db.spaces s (λ h. text_eq→eq s.code c h) (t.codes c) fresh;
  one_active = t.one_active;
  placed = λ id. omega (arith, count-append (is_space id) db.spaces (s ∷ []), t.placed id);
}

-- A space that no active assignment is of is taken away.
pub removed-IsTidy :
    (db : Db) (id : ℕ)
    → count (active_for id) db.assignments ≡ 0
    → IsTidy db
    → IsTidy (record db { spaces = select (λ s. not (s.id == id)) db.spaces })
removed-IsTidy db id unused t = record {
  codes = λ c.
      omega
        (arith, count-select_le (has_space_code c) (λ s. not (s.id == id)) db.spaces, t.codes c);
  one_active = t.one_active;
  placed = λ k. elim (Bool-cases (k == id)) [
    | inl same ↦
        subst
          (λ j.
            count (active_for j) db.assignments
            ≤ count (is_space j) (select (λ s. not (s.id == id)) db.spaces))
          (sym (==→eq k id same)) (omega (arith, unused))
    | inr other ↦ omega (
      arith,
      count-select_same (is_space k) (λ s. not (s.id == id)) db.spaces (λ s h. ground arith),
      t.placed k,
    )
  ];
}

-- One more active assignment, of a space that is there and has none.
pub assigned-IsTidy :
    (db : Db) (a : ParkingAssignment)
    → 1 ≤ count (is_space a.parking_space_id) db.spaces
    → count (active_for a.parking_space_id) db.assignments ≡ 0
    → IsTidy db
    → IsTidy (record db { assignments = db.assignments ++ a ∷ [] })
unfolding count
assigned-IsTidy db a there unused t = record {
  codes = t.codes;
  one_active = λ id. at_most id (count-append (active_for id) db.assignments (a ∷ []));
  placed = λ id. covered id (count-append (active_for id) db.assignments (a ∷ []));
}
  where
    at_most :
        (id : ℕ)
        → count (active_for id) (db.assignments ++ a ∷ [])
          ≡ count (active_for id) db.assignments + count (active_for id) (a ∷ [])
        → count (active_for id) (db.assignments ++ a ∷ []) ≤ 1
    at_most id more = elim (Bool-cases (a.parking_space_id == id)) [
      | inl same ↦
          let none_yet =
            subst (λ j. count (active_for j) db.assignments ≡ 0) (==→eq a.parking_space_id id same)
              unused in
          ground (arith, more, none_yet)
      | inr other ↦ ground (arith, more, other, t.one_active id)
    ]

    covered :
        (id : ℕ)
        → count (active_for id) (db.assignments ++ a ∷ [])
          ≡ count (active_for id) db.assignments + count (active_for id) (a ∷ [])
        → count (active_for id) (db.assignments ++ a ∷ []) ≤ count (is_space id) db.spaces
    covered id more = elim (Bool-cases (a.parking_space_id == id)) [
      | inl same ↦
          let none_yet =
            subst (λ j. count (active_for j) db.assignments ≡ 0) (==→eq a.parking_space_id id same)
              unused in
          let found =
            subst (λ j. 1 ≤ count (is_space j) db.spaces) (==→eq a.parking_space_id id same)
              there in
          ground (arith, more, none_yet, found)
      | inr other ↦ ground (arith, more, other, t.placed id)
    ]

-- An assignment is closed.
pub closed-IsTidy :
    (db : Db) (id : ℕ)
    → IsTidy db
    → IsTidy (record db {
      assignments = update (λ a. a.id == id) (λ a. record a { is_active = false }) db.assignments;
    })
closed-IsTidy db id t = record {
  codes = t.codes;
  one_active = λ k. omega (arith, fewer k, t.one_active k);
  placed = λ k. omega (arith, fewer k, t.placed k);
}
  where
    fewer :
        (k : ℕ)
        → count
            (active_for k)
            (update (λ a. a.id == id) (λ a. record a { is_active = false }) db.assignments)
          ≤ count (active_for k) db.assignments
    fewer k =
        count-update_le (active_for k) (λ a. a.id == id) (λ a. record a { is_active = false })
          db.assignments (λ a h. ground arith)

-- The occupancies do not matter.
pub freed-IsTidy :
    (db : Db) (place : Option ℕ)
    → IsTidy db
    → IsTidy (record db { spaces = freed_space place db.spaces })
freed-IsTidy db none t = record { codes = t.codes; one_active = t.one_active; placed = t.placed }
freed-IsTidy db (some id) t = update-IsTidy db id _ (λ s. refl) (λ s. refl) t

pub points-IsTidy :
    (db : Db) (ps : List Point)
    → IsTidy db
    → IsTidy (record db { spaces = (save_points ps db.spaces).1 })
unfolding save_points
points-IsTidy db [] t = record { codes = t.codes; one_active = t.one_active; placed = t.placed }
points-IsTidy db (p ∷ ps) t =
    let placed =
      update-IsTidy db p.space_id (λ s. record s { map_x = some p.x; map_y = some p.y }) (λ s. refl)
        (λ s. refl) t in
    points-IsTidy
      (record db {
        spaces =
            update (is_space p.space_id) (λ s. record s { map_x = some p.x; map_y = some p.y })
              db.spaces;
      })
      ps placed
