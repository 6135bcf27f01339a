-- ===== src/Violations/Requests.antt =====
-- Any sequence of requests on violations, with other requests between the reads and the writes of a
-- registration.
use parking_system.Common.{
  any, ℕ, ◌≡◌, refl, subst, Bool, true, false, Option, none, some, List, [], ◌∷◌, ◌++◌, arith, inl,
  inr, Bool-cases, first, ◌==◌, text_eq,
}
use parking_system.Python.{Python, Text}
use parking_system.Plate.{normalize_plate}
use parking_system.Store.{Violation, cancelled}
use parking_system.Violations.{
  create_type, Desk, ViolationType, done, integrity_error, has_id, is_status, confirm_violation,
  cancel_violation, create_appeal, review_appeal, appeal_result, Cancelled, AppealStatus,
}
use parking_system.Violations.Create.{
  NewViolation, Created, create_violation, insert_violation, new_violation, find_ref, ref_taken,
  created, create_typed, create_unseen, lacks_image,
}
use parking_system.Violations.Voiding.{is_cancelled}
use parking_system.Violations.Desks.{
  IsSettled, done_same, confirm_found-IsSettled, cancel_found-IsSettled, appeal_found-IsSettled,
  review_found-IsSettled,
}

cancelled-append :
    (k : ℕ) (v : Violation) (vs : List Violation)
    → is_status v.status cancelled ≡ false
    → is_cancelled k (vs ++ v ∷ []) ≡ is_cancelled k vs
unfolding first
cancelled-append k v [] h = ground arith
cancelled-append k v (w ∷ vs) h = ground (arith, cancelled-append k v vs h)

insert-IsSettled :
    (ref : Option Text) (v : Violation) (d d' : Desk) (a : Created)
    → is_status v.status cancelled ≡ false
    → IsSettled d
    → insert_violation ref v d ≡ done a d'
    → IsSettled d'
unfolding insert_violation
insert-IsSettled ref v d d' a fresh s h = elim (Bool-cases (ref_taken ref d.violations)) [
  | inl taken ↦ found (find_ref ref d.violations) (simp taken at h)
  | inr free ↦ subst IsSettled (done_same (simp free at h)) (record {
    one_charge = s.one_charge;
    cleared = λ k e. s.cleared k (rw (cancelled-append k v d.violations fresh) at e);
  })
]
  where
    found :
        (o : Option Violation)
        → elim o [ none ↦ integrity_error | some w ↦ done (created w true true) d ] ≡ done a d'
        → IsSettled d'
    found none e = cc
    found (some w) e = subst IsSettled (done_same e) s

create-IsSettled :
    (py : Python) (mapping : Text) (body : NewViolation) (id : ℕ) (seen d d' : Desk) (a : Created)
    → IsSettled d
    → create_violation py mapping body id seen d ≡ done a d'
    → IsSettled d'
unfolding create_violation create_unseen create_typed new_violation
create-IsSettled py mapping body id seen d d' a s h =
    by_ref (find_ref body.client_ref seen.violations) h
  where
    by_type :
        (o : Option ViolationType)
        → create_typed o py mapping body id seen d ≡ done a d'
        → IsSettled d'
    by_type none e = cc
    by_type (some t) e = elim (Bool-cases (lacks_image t body)) [
      | inl lacking ↦ cc (simp lacking at e)
      | inr fine ↦
          insert-IsSettled body.client_ref
            (new_violation (normalize_plate py mapping (some body.plate_raw) none) body t id seen) d
            d' a refl s (simp fine at e)
    ]

    by_ref :
        (o : Option Violation)
        → create_unseen o py mapping body id seen d ≡ done a d'
        → IsSettled d'
    by_ref (some v) e = subst IsSettled (done_same e) s
    by_ref none e = by_type (first (λ t. text_eq t.code body.violation_type_code) seen.types) e

type-IsSettled :
    (t : ViolationType) (d d' : Desk) (a : ℕ)
    → IsSettled d
    → create_type t d ≡ done a d'
    → IsSettled d'
unfolding create_type
type-IsSettled t d d' a s h = elim (Bool-cases (any (λ u. text_eq u.code t.code) d.types)) [
  | inl taken ↦ cc (simp taken at h)
  | inr free ↦
      subst IsSettled (done_same (simp free at h))
        (record { one_charge = s.one_charge; cleared = s.cleared })
]

-- One request that is answered, each in one go; a registration may have read other tables than those
-- it writes.
pub data Step (d d' : Desk) : Type 0 where
  add_type : (t : ViolationType) (a : ℕ) → create_type t d ≡ done a d' → Step d d'
  create :
      (py : Python) (mapping : Text) (body : NewViolation) (id : ℕ) (seen : Desk) (a : Created)
      → create_violation py mapping body id seen d ≡ done a d'
      → Step d d'
  confirm :
      (id : ℕ) (user : Option ℕ) (now charge_id : ℕ) (dup : Bool)
      → confirm_violation id user now charge_id d ≡ done dup d'
      → Step d d'
  cancel :
      (id : ℕ) (user : Option ℕ) (now : ℕ) (a : Cancelled)
      → cancel_violation id user now d ≡ done a d'
      → Step d d'
  appeal :
      (id : ℕ) (user : Option ℕ) (fresh a : ℕ)
      → create_appeal id user fresh d ≡ done a d'
      → Step d d'
  review :
      (py : Python) (id : ℕ) (result : Text) (user : Option ℕ) (now : ℕ) (a : AppealStatus × Bool)
      → review_appeal py id result user now d ≡ done a d'
      → Step d d'

pub data Requests (start : Desk) : Desk → Type 0 where
  here : Requests start start
  then : {d d' : Desk} → Requests start d → Step d d' → Requests start d'

-- Every request that is answered keeps it that a violation has at most one charge, and that a
-- cancelled violation has no unpaid charge.
pub Step-IsSettled : (d d' : Desk) → IsSettled d → Step d d' → IsSettled d'
unfolding confirm_violation cancel_violation create_appeal review_appeal
Step-IsSettled d d' s (add_type t a h) = type-IsSettled t d d' a s h
Step-IsSettled d d' s (create py mapping body id seen a h) =
    create-IsSettled py mapping body id seen d d' a s h
Step-IsSettled d d' s (confirm id user now charge_id dup h) =
    confirm_found-IsSettled (first (has_id id) d.violations) id user now charge_id d d' dup refl s h
Step-IsSettled d d' s (cancel id user now a h) =
    cancel_found-IsSettled (first (has_id id) d.violations) id user now d d' a s h
Step-IsSettled d d' s (appeal id user fresh a h) =
    appeal_found-IsSettled (first (has_id id) d.violations) id user fresh d d' a s h
Step-IsSettled d d' s (review py id result user now a h) =
    review_found-IsSettled (first (λ x. x.id == id) d.appeals) (appeal_result py result) user now d
      d' a s h

-- From tables where it holds, after any sequence of new types, registrations, confirmations, cancellations,
-- appeals and reviews: a violation has at most one charge, and none unpaid once it is cancelled.
pub Requests-IsSettled :
    (start : Desk) {d : Desk} → IsSettled start → Requests start d → IsSettled d
Requests-IsSettled start s here = s
Requests-IsSettled start s (then {d} {d'} reached step) =
    Step-IsSettled d d' (Requests-IsSettled start s reached) step
