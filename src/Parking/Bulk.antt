-- ===== src/Parking/Bulk.antt =====
-- backend/app/modules/parking/router.py: a registration of yard spaces that is sent once more.
use parking_system.Common.{
  ℕ, ◌≡◌, ◌+◌, refl, subst, true, not, Option, none, some, List, [], ◌∷◌, inl, inr, Bool-cases,
  if◌then◌else◌, any, All, text_eq_refl, any_last, any-append_left,
}
use parking_system.Python.{Python, Text, strip}
use parking_system.Model.{ParkingSpace}
use parking_system.Store.{Db}
use parking_system.Parking.{Ended, done, conflict, has_space_code}
use parking_system.Parking.Handlers.{done_same}
use parking_system.Parking.YardSpaces.{
  YardRequest, create_yard_spaces, add_codes, codes_in, kind_of, with_code, noted_code, yard_space,
  is_blank_code, CodeKind, blank, known, fresh_code,
}

-- A code that the loop passes over.
abbrev pub IsKnown : List ParkingSpace → Text → Type 0
IsKnown spaces [] = Unit
IsKnown spaces (c ∷ s) = any (has_space_code (c ∷ s)) spaces ≡ true

code-IsKnown :
    (code : Text) (id : ℕ) (spaces : List ParkingSpace)
    → IsKnown (with_code (kind_of code spaces) code id spaces) code
code-IsKnown [] id spaces = tt
code-IsKnown (c ∷ s) id spaces = elim (Bool-cases (any (has_space_code (c ∷ s)) spaces)) [
  | inl there ↦ rw there there
  | inr fresh ↦
      rw fresh
        (any_last (has_space_code (c ∷ s)) spaces (yard_space (c ∷ s) id) (text_eq_refl (c ∷ s)))
]

with_code-IsKnown :
    (kind : CodeKind) (new code : Text) (id : ℕ) (spaces : List ParkingSpace)
    → IsKnown spaces code
    → IsKnown (with_code kind new id spaces) code
with_code-IsKnown kind new [] id spaces h = tt
with_code-IsKnown blank new (c ∷ s) id spaces h = h
with_code-IsKnown known new (c ∷ s) id spaces h = h
with_code-IsKnown fresh_code new (c ∷ s) id spaces h =
    any-append_left (has_space_code (c ∷ s)) spaces (yard_space new id ∷ []) h

later-IsKnown :
    (py : Python) (id : ℕ) (raws : List Text) (spaces : List ParkingSpace) (code : Text)
    → IsKnown spaces code
    → IsKnown (add_codes py id raws spaces).1 code
unfolding add_codes
later-IsKnown py id [] spaces code h = h
later-IsKnown py id (raw ∷ raws) spaces code h =
    later-IsKnown py (id + 1) raws
      (with_code (kind_of (strip py raw) spaces) (strip py raw) id spaces) code
      (with_code-IsKnown (kind_of (strip py raw) spaces) (strip py raw) code id spaces h)

-- After the loop, every code of it is known.
loop_knows :
    (py : Python) (id : ℕ) (raws : List Text) (spaces : List ParkingSpace)
    → All (λ raw. IsKnown (add_codes py id raws spaces).1 (strip py raw)) raws
unfolding add_codes
loop_knows py id [] spaces = tt
loop_knows py id (raw ∷ raws) spaces =
    let next = with_code (kind_of (strip py raw) spaces) (strip py raw) id spaces in
    (
      later-IsKnown py (id + 1) raws next (strip py raw) (code-IsKnown (strip py raw) id spaces),
      loop_knows py (id + 1) raws next,
    )

abbrev noted_kind : Text → CodeKind
noted_kind [] = blank
noted_kind (c ∷ s) = known

kind-known :
    (code : Text) (spaces : List ParkingSpace)
    → IsKnown spaces code
    → kind_of code spaces ≡ noted_kind code
kind-known [] spaces h = refl
kind-known (c ∷ s) spaces h = rw h refl

-- The codes of the loop that are not blank.
abbrev pub stripped : Python → List Text → List Text
stripped py [] = []
stripped py (raw ∷ raws) = elim (strip py raw) [
  | [] ↦ stripped py raws
  | c ∷ s ↦ (c ∷ s) ∷ stripped py raws
]

known_codes_skipped :
    (py : Python) (id : ℕ) (raws : List Text) (spaces : List ParkingSpace)
    → All (λ raw. IsKnown spaces (strip py raw)) raws
    → add_codes py id raws spaces ≡ (([], stripped py raws), spaces)
unfolding add_codes
known_codes_skipped py id [] spaces h = refl
known_codes_skipped py id (raw ∷ raws) spaces (h, hs) =
    one_code (strip py raw) h (known_codes_skipped py (id + 1) raws spaces hs)
  where
    ends_with :
        Text
        → (List Text × List Text) × List ParkingSpace
        → (List Text × List Text) × List ParkingSpace
    ends_with code (noted, end) = (noted_code (kind_of code spaces) code noted, end)

    one_code :
        (code : Text)
        → IsKnown spaces code
        → add_codes py (id + 1) raws spaces ≡ (([], stripped py raws), spaces)
        → ends_with code
            (add_codes py (id + 1) raws (with_code (kind_of code spaces) code id spaces))
          ≡ (([], elim code [ [] ↦ stripped py raws | c ∷ s ↦ (c ∷ s) ∷ stripped py raws ]), spaces)
    one_code [] k rest = rw rest refl
    one_code (c ∷ s) k rest = rw (k, rest) refl

-- What a registration of the codes does where they have been registered.
abbrev registered : Python → List Text → ℕ → Db → Ended (List Text × List Text)
registered py raws id d =
    if any (λ raw. not (is_blank_code py raw)) raws
    then (let (noted, spaces) = add_codes py id raws d.spaces in
        done noted (record d { spaces = spaces }))
    else conflict

registered_again :
    (py : Python) (raws : List Text) (id id' : ℕ) (d : Db)
    → any (λ raw. not (is_blank_code py raw)) raws ≡ true
    → registered py raws id' (record d { spaces = (add_codes py id raws d.spaces).1 })
      ≡ done ([], stripped py raws) (record d { spaces = (add_codes py id raws d.spaces).1 })
registered_again py raws id id' d some_code =
    rw
      (
        some_code,
        known_codes_skipped py id' raws (add_codes py id raws d.spaces).1
            (loop_knows py id raws d.spaces),
      )
      refl

-- The codes of a registration that are not blank, stripped; none where it is refused.
abbrev pub codes_of : Python → YardRequest → Option (List Text)
codes_of py body = elim (codes_in py body) [ none ↦ none | some raws ↦ some (stripped py raws) ]

-- A registration of yard spaces that is answered, sent once more, creates nothing and leaves the
-- database as it is: it answers that all its codes that are not blank, stripped and in their order,
-- were there.
pub bulk_is_idempotent :
    (py : Python) (body : YardRequest) (id id' : ℕ) (d d' : Db) {a : List Text × List Text}
    → create_yard_spaces py body id d ≡ done a d'
    → (skipped : List Text) × ((codes_of py body ≡ some skipped)
        × (create_yard_spaces py body id' d' ≡ done ([], skipped) d'))
unfolding create_yard_spaces
bulk_is_idempotent py body id id' d d' {a} h = by_codes (codes_in py body) h
  where
    by_codes :
        (o : Option (List Text))
        → elim o [ none ↦ conflict | some raws ↦ registered py raws id d ] ≡ done a d'
        → (skipped : List Text) × ((elim o [ none ↦ none | some raws ↦ some (stripped py raws) ]
              ≡ some skipped)
            × (elim o [ none ↦ conflict | some raws ↦ registered py raws id' d' ]
                ≡ done ([], skipped) d'))
    by_codes none k = cc
    by_codes (some raws) k = elim (Bool-cases (any (λ raw. not (is_blank_code py raw)) raws)) [
      | inl some_code ↦ (
        stripped py raws,
        (
          refl,
          subst (λ e. registered py raws id' e ≡ done ([], stripped py raws) e)
              (done_same (simp some_code at k)) (registered_again py raws id id' d some_code),
        ),
      )
      | inr none_left ↦ cc (simp none_left at k)
    ]
