-- ===== src/Violations/Repeat.antt =====
-- Requests on violations that are sent twice.
use parking_system.Common.{
  ℕ, ◌≡◌, refl, subst, Bool, true, not, Option, none, some, List, [], ◌∷◌, arith, inl, inr,
  Bool-cases, first, update,
}
use parking_system.Store.{Violation, ViolationStatus, confirmed}
use parking_system.Violations.{
  Desk, done, has_id, is_status, set_status, reviewed, can_transition, confirm_violation,
  confirm_found,
}
use parking_system.Violations.Desks.{done_same}

first-set :
    (id : ℕ) (s : ViolationStatus) (user : Option ℕ) (now : ℕ) (vs : List Violation) {v : Violation}
    → first (has_id id) vs ≡ some v
    → first (has_id id) (set_status id s user now vs) ≡ some (reviewed s user now v)
unfolding set_status first update
first-set id s user now [] h = cc
first-set id s user now (w ∷ vs) {v} h = ground (arith, first-set id s user now vs {v = v})

confirmed_status :
    (o : Option Violation) (id : ℕ) (user : Option ℕ) (now charge_id : ℕ) (d d' : Desk) (dup : Bool)
    → first (has_id id) d.violations ≡ o
    → confirm_found o id user now charge_id d ≡ done dup d'
    → (v : Violation) × (first (has_id id) d'.violations ≡ some v)
      × (is_status v.status confirmed ≡ true)
unfolding confirm_found
confirmed_status none id user now charge_id d d' dup found h = cc
confirmed_status (some v) id user now charge_id d d' dup found h =
    elim (Bool-cases (is_status v.status confirmed)) [
      | inl again ↦ (
        v,
        subst (λ e. first (has_id id) e.violations ≡ some v) (done_same (simp again at h)) found,
        again,
      )
      | inr fresh ↦ elim (Bool-cases (not (can_transition v.status confirmed))) [
        | inl barred ↦ cc (simp (fresh, barred) at h)
        | inr allowed ↦ (
          reviewed confirmed user now v,
          subst (λ e. first (has_id id) e.violations ≡ some (reviewed confirmed user now v))
              (done_same (simp (fresh, allowed) at h))
              (first-set id confirmed user now d.violations found),
          refl,
        )
      ]
    ]

-- A confirmation that is sent again, by whomever and whenever, is answered as a duplicate and changes
-- no row: the penalty is charged once.
pub confirm_again :
    (id : ℕ) (user user' : Option ℕ) (now now' charge_id charge_id' : ℕ) (d d' : Desk) (dup : Bool)
    → confirm_violation id user now charge_id d ≡ done dup d'
    → confirm_violation id user' now' charge_id' d' ≡ done true d'
unfolding confirm_violation confirm_found
confirm_again id user user' now now' charge_id charge_id' d d' dup h =
    let (v, found, status) =
      confirmed_status (first (has_id id) d.violations) id user now charge_id d d' dup refl h in
    rw (found, status) refl
