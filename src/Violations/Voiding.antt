-- ===== src/Violations/Voiding.antt =====
-- What `_void_unpaid_charge` and the review's assignments do to the rows.
use parking_system.Common.{
  ℕ, ◌≤◌, ◌≡◌, refl, Bool, false, ◌&&◌, Option, none, some, List, [], ◌∷◌, arith, inl, inr,
  Bool-cases, count, count-append, first, update, ◌==◌, first-none-count, ◌⊎◌, subst, ==→eq,
  Option-cases,
}
use parking_system.Model.{Charge}
use parking_system.Store.{Violation, ViolationStatus, cancelled}
use parking_system.Violations.{
  has_id, charges_for, voided_row, void_unpaid_charge, void_found, voidable_charge_status,
  set_status, is_status, charge_penalty, violation_charge,
}

-- An unpaid charge of the violation.
abbrev pub owes_for : ℕ → Charge → Bool
owes_for id c = charges_for id c && voidable_charge_status c.status

-- Is the violation of this identifier cancelled?
abbrev pub is_cancelled : ℕ → List Violation → Bool
is_cancelled id vs = elim (first (has_id id) vs) [
  | none ↦ false
  | some v ↦ is_status v.status cancelled
]

count-owes : (id : ℕ) (cs : List Charge) → count (owes_for id) cs ≤ count (charges_for id) cs
unfolding count
count-owes id [] = omega arith
count-owes id (c ∷ cs) = ground (arith, count-owes id cs)

void-count :
    (id k : ℕ) (cs : List Charge)
    → count (owes_for id) (update (λ d. d.id == k) voided_row cs) ≤ count (owes_for id) cs
unfolding count update voidable_charge_status
void-count id k [] = omega arith
void-count id k (c ∷ cs) = ground (arith, void-count id k cs)

void_same :
    (id k : ℕ) (cs : List Charge)
    → count (charges_for id) (update (λ d. d.id == k) voided_row cs) ≡ count (charges_for id) cs
unfolding count update
void_same id k [] = refl
void_same id k (c ∷ cs) = ground (arith, void_same id k cs)

void_first :
    (id : ℕ) (cs : List Charge) {c : Charge}
    → first (charges_for id) cs ≡ some c
    → count (charges_for id) cs ≤ 1
    → count (owes_for id) (update (λ d. d.id == c.id) voided_row cs) ≡ 0
unfolding count update voidable_charge_status first
void_first id [] h one = cc
void_first id (d ∷ cs) {c} h one =
    ground (arith, void_first id cs {c = c}, void-count id c.id cs, count-owes id cs)

paid_first :
    (id : ℕ) (cs : List Charge) {c : Charge}
    → first (charges_for id) cs ≡ some c
    → voidable_charge_status c.status ≡ false
    → count (charges_for id) cs ≤ 1
    → count (owes_for id) cs ≡ 0
unfolding count first
paid_first id [] h p one = cc
paid_first id (d ∷ cs) {c} h p one = ground (arith, paid_first id cs {c = c}, count-owes id cs)

-- Voiding leaves nothing owed for the violation that it is for.
pub void-owes :
    (id : ℕ) (cs : List Charge)
    → count (charges_for id) cs ≤ 1
    → count (owes_for id) (void_unpaid_charge id cs).0 ≡ 0
unfolding void_unpaid_charge void_found
void-owes id cs one = elim (Option-cases (first (charges_for id) cs)) [
  | inl h ↦ rw h (omega (arith, count-owes id cs, first-none-count (charges_for id) cs h))
  | inr (c, h) ↦ elim (Bool-cases (voidable_charge_status c.status)) [
    | inl unpaid ↦ rw (h, unpaid) (void_first id cs h one)
    | inr kept ↦ rw (h, kept) (paid_first id cs h kept one)
  ]
]

-- The rows either stay or are those of one charge voided.
void_rows :
    (o : Option Charge) (cs : List Charge)
    → ((void_found o cs).0 ≡ cs)
      ⊎ ((k : ℕ) × ((void_found o cs).0 ≡ update (λ d. d.id == k) voided_row cs))
unfolding void_found
void_rows none cs = inl refl
void_rows (some c) cs = elim (Bool-cases (voidable_charge_status c.status)) [
  | inl unpaid ↦ inr (c.id, rw unpaid refl)
  | inr kept ↦ inl (rw kept refl)
]

pub void-owes-le :
    (id k : ℕ) (cs : List Charge)
    → count (owes_for k) (void_unpaid_charge id cs).0 ≤ count (owes_for k) cs
unfolding void_unpaid_charge
void-owes-le id k cs = elim (void_rows (first (charges_for id) cs) cs) [
  | inl same ↦ rw same (omega arith)
  | inr (j, e) ↦ rw e (void-count k j cs)
]

pub void-charges :
    (id k : ℕ) (cs : List Charge)
    → count (charges_for k) (void_unpaid_charge id cs).0 ≡ count (charges_for k) cs
unfolding void_unpaid_charge
void-charges id k cs = elim (void_rows (first (charges_for id) cs) cs) [
  | inl same ↦ rw same refl
  | inr (j, e) ↦ rw e (void_same k j cs)
]

-- What the assignments of a review do to the statuses.
pub cancelled-set_same :
    (id : ℕ) (s : ViolationStatus) (user : Option ℕ) (now : ℕ) (vs : List Violation)
    → is_status s cancelled ≡ false
    → is_cancelled id (set_status id s user now vs) ≡ false
unfolding set_status first update
cancelled-set_same id s user now [] h = refl
cancelled-set_same id s user now (v ∷ vs) h = ground (arith, cancelled-set_same id s user now vs)

pub cancelled-set_other :
    (id k : ℕ) (s : ViolationStatus) (user : Option ℕ) (now : ℕ) (vs : List Violation)
    → (k == id) ≡ false
    → is_cancelled k (set_status id s user now vs) ≡ is_cancelled k vs
unfolding set_status first update
cancelled-set_other id k s user now [] h = refl
cancelled-set_other id k s user now (v ∷ vs) h =
    ground (arith, cancelled-set_other id k s user now vs)

penalty_same :
    (charge_id now : ℕ) (v : Violation) (cs : List Charge)
    → count (charges_for v.id) cs ≤ 1
    → count (charges_for v.id) (charge_penalty charge_id v now cs) ≤ 1
unfolding charge_penalty count
penalty_same charge_id now v cs h = elim (Option-cases (first (charges_for v.id) cs)) [
  | inl none_yet ↦ rw none_yet (
      ground (
        arith,
        count-append (charges_for v.id) cs (violation_charge charge_id v now ∷ []),
        first-none-count (charges_for v.id) cs none_yet,
      ))
  | inr (c, e) ↦ rw e h
]

penalty_other :
    (charge_id now k : ℕ) (v : Violation) (cs : List Charge)
    → (v.id == k) ≡ false
    → count (charges_for k) (charge_penalty charge_id v now cs) ≡ count (charges_for k) cs
unfolding charge_penalty count
penalty_other charge_id now k v cs h =
    ground (arith, count-append (charges_for k) cs (violation_charge charge_id v now ∷ []))

-- A confirmation adds at most one charge, and only where there is none.
pub penalty-charges :
    (charge_id now k : ℕ) (v : Violation) (cs : List Charge)
    → ((j : ℕ) → count (charges_for j) cs ≤ 1)
    → count (charges_for k) (charge_penalty charge_id v now cs) ≤ 1
penalty-charges charge_id now k v cs h = elim (Bool-cases (v.id == k)) [
  | inl same ↦
      subst (λ j. count (charges_for j) (charge_penalty charge_id v now cs) ≤ 1) (==→eq v.id k same)
        (penalty_same charge_id now v cs (h v.id))
  | inr other ↦ rw (penalty_other charge_id now k v cs other) (h k)
]

pub penalty-owes_other :
    (charge_id now k : ℕ) (v : Violation) (cs : List Charge)
    → (v.id == k) ≡ false
    → count (owes_for k) (charge_penalty charge_id v now cs) ≡ count (owes_for k) cs
unfolding charge_penalty count
penalty-owes_other charge_id now k v cs h =
    ground (arith, count-append (owes_for k) cs (violation_charge charge_id v now ∷ []))
