-- ===== src/Violations/Desks.antt =====
-- Requests on violations, in any order: what holds of the tables after them.
use parking_system.Common.{
  ℕ, ◌≤◌, ◌≡◌, refl, sym, subst, first_passes, Bool, true, not, Option, none, some, arith, inl, inr,
  Bool-cases, count, first, ◌==◌, ==→eq, update,
}
use parking_system.Store.{Violation, confirmed, cancelled}
use parking_system.Violations.{
  Desk, done, has_id, charges_for, is_status, is_live, set_status, charge_penalty, can_transition,
  cancel_rows, accept_appeal, confirm_found, cancel_found, appeal_found, accept_found,
  settle_appeal, review_found, reviewed_appeal, is_accepted, is_submitted, void_unpaid_charge,
  Cancelled, AppealStatus, ViolationAppeal,
}
use parking_system.Violations.Voiding.{
  owes_for, is_cancelled, void-owes, void-owes-le, void-charges, cancelled-set_same,
  cancelled-set_other, penalty-charges, penalty-owes_other,
}

-- A violation has at most one charge, and none that is unpaid once it is cancelled.
pub record IsSettled (d : Desk) : Type 0 where
  pub one_charge : (id : ℕ) → count (charges_for id) d.charges ≤ 1
  pub cleared : (id : ℕ) → is_cancelled id d.violations ≡ true → count (owes_for id) d.charges ≡ 0

cancel_rows-IsSettled :
    (id : ℕ) (user : Option ℕ) (now : ℕ) (d : Desk)
    → IsSettled d
    → IsSettled (cancel_rows id user now d)
unfolding cancel_rows
cancel_rows-IsSettled id user now d s = record {
  one_charge = λ k. rw (void-charges id k d.charges) (s.one_charge k);
  cleared = λ k h. elim (Bool-cases (k == id)) [
    | inl same ↦
        subst (λ j. count (owes_for j) (void_unpaid_charge id d.charges).0 ≡ 0)
          (sym (==→eq k id same)) (void-owes id d.charges (s.one_charge id))
    | inr other ↦ omega (
      arith,
      void-owes-le id k d.charges,
      s.cleared k (rw (cancelled-set_other id k cancelled user now d.violations other) at h),
    )
  ];
}

confirm_rows-IsSettled :
    (id : ℕ) (user : Option ℕ) (now charge_id : ℕ) (v : Violation) (d : Desk)
    → v.id ≡ id
    → IsSettled d
    → IsSettled (record d {
      violations = set_status id confirmed user now d.violations;
      charges = charge_penalty charge_id v now d.charges;
    })
confirm_rows-IsSettled id user now charge_id v d e s = record {
  one_charge = λ k. penalty-charges charge_id now k v d.charges s.one_charge;
  cleared = λ k h. elim (Bool-cases (k == id)) [
    | inl same ↦ cc (cancelled-set_same id confirmed user now d.violations refl, ==→eq k id same, h)
    | inr other ↦
        rw (penalty-owes_other charge_id now k v d.charges (ground arith))
          (s.cleared k (rw (cancelled-set_other id k confirmed user now d.violations other) at h))
  ];
}

pub done_same : {A : Type 0} {a b : A} {d e : Desk} → done a d ≡ done b e → d ≡ e
done_same h = cc

pub confirm_found-IsSettled :
    (o : Option Violation) (id : ℕ) (user : Option ℕ) (now charge_id : ℕ) (d d' : Desk) (dup : Bool)
    → first (has_id id) d.violations ≡ o
    → IsSettled d
    → confirm_found o id user now charge_id d ≡ done dup d'
    → IsSettled d'
unfolding confirm_found
confirm_found-IsSettled none id user now charge_id d d' dup found s h = cc
confirm_found-IsSettled (some v) id user now charge_id d d' dup found s h =
    elim (Bool-cases (is_status v.status confirmed)) [
      | inl again ↦ subst IsSettled (done_same (simp again at h)) s
      | inr fresh ↦ elim (Bool-cases (not (can_transition v.status confirmed))) [
        | inl barred ↦ cc (simp (fresh, barred) at h)
        | inr allowed ↦ subst IsSettled (done_same (simp (fresh, allowed) at h)) (
            confirm_rows-IsSettled id user now charge_id v d
              (==→eq v.id id (first_passes (has_id id) d.violations found)) s)
      ]
    ]

pub cancel_found-IsSettled :
    (o : Option Violation) (id : ℕ) (user : Option ℕ) (now : ℕ) (d d' : Desk) (a : Cancelled)
    → IsSettled d
    → cancel_found o id user now d ≡ done a d'
    → IsSettled d'
unfolding cancel_found
cancel_found-IsSettled none id user now d d' a s h = cc
cancel_found-IsSettled (some v) id user now d d' a s h =
    elim (Bool-cases (is_status v.status cancelled)) [
      | inl again ↦ subst IsSettled (done_same (simp again at h)) s
      | inr fresh ↦ elim (Bool-cases (not (can_transition v.status cancelled))) [
        | inl barred ↦ cc (simp (fresh, barred) at h)
        | inr allowed ↦
            subst IsSettled (done_same (simp (fresh, allowed) at h))
              (cancel_rows-IsSettled id user now d s)
      ]
    ]

pub appeal_found-IsSettled :
    (o : Option Violation) (id : ℕ) (user : Option ℕ) (fresh : ℕ) (d d' : Desk) (a : ℕ)
    → IsSettled d
    → appeal_found o id user fresh d ≡ done a d'
    → IsSettled d'
unfolding appeal_found
appeal_found-IsSettled none id user fresh d d' a s h = cc
appeal_found-IsSettled (some v) id user fresh d d' a s h =
    elim (Bool-cases (not (is_live v.status))) [
      | inl barred ↦ cc (simp barred at h)
      | inr allowed ↦
          subst IsSettled (done_same (simp allowed at h))
            (record { one_charge = s.one_charge; cleared = s.cleared })
    ]

accept_found-IsSettled :
    (o : Option Violation) (id : ℕ) (user : Option ℕ) (now : ℕ) (d : Desk)
    → IsSettled d
    → IsSettled (accept_found o id user now d).0
unfolding accept_found
accept_found-IsSettled none id user now d s = s
accept_found-IsSettled (some v) id user now d s = elim (Bool-cases (is_live v.status)) [
  | inl live ↦ rw live (cancel_rows-IsSettled id user now d s)
  | inr over ↦ rw over s
]

settle_appeal-IsSettled :
    (r : AppealStatus) (a : ViolationAppeal) (user : Option ℕ) (now : ℕ) (d d' : Desk)
    (ans : AppealStatus × Bool)
    → IsSettled d
    → settle_appeal r a user now d ≡ done ans d'
    → IsSettled d'
unfolding settle_appeal accept_appeal
settle_appeal-IsSettled r a user now d d' ans s h =
    let marked = record d {
      appeals = update (λ b. b.id == a.id) (reviewed_appeal r user now) d.appeals;
    } in
    let kept : IsSettled marked = record { one_charge = s.one_charge; cleared = s.cleared } in
    elim (Bool-cases (is_accepted r)) [
      | inl valid ↦ subst IsSettled (done_same (simp valid at h)) (
          accept_found-IsSettled (first (has_id a.violation_id) d.violations) a.violation_id user
            now marked kept)
      | inr refused ↦ subst IsSettled (done_same (simp refused at h)) kept
    ]

pub review_found-IsSettled :
    (o : Option ViolationAppeal) (r : Option AppealStatus) (user : Option ℕ) (now : ℕ) (d d' : Desk)
    (ans : AppealStatus × Bool)
    → IsSettled d
    → review_found o r user now d ≡ done ans d'
    → IsSettled d'
unfolding review_found
review_found-IsSettled none r user now d d' ans s h = cc
review_found-IsSettled (some a) none user now d d' ans s h = ground arith
review_found-IsSettled (some a) (some r) user now d d' ans s h =
    elim (Bool-cases (not (is_submitted a.status))) [
      | inl over ↦ cc (simp over at h)
      | inr waiting ↦ settle_appeal-IsSettled r a user now d d' ans s (simp waiting at h)
    ]
