-- ===== src/Finance/Tariff/Activation.antt =====
-- Which tariff is in force.
use parking_system.Common.{
  ℕ, ◌≤◌, ◌≡◌, refl, Bool, true, ◌&&◌, Option, none, some, List, [], ◌∷◌, arith, some_same, subst,
  count, first, first-sort, first_passes, count-sort, count-select, All, All-select, All-sort,
  All-first, select, sort_desc, sym, ◌∙◌, ltb, map, ◌==◌,
}
use parking_system.Model.{Tariff}
use parking_system.Finance.Tariff
use parking_system.Finance.Tariff.{activate_row, activate_tariff, get_active_tariff, in_force}

abbrev pub is_in_force : Tariff → Bool
is_in_force t = Tariff.is_active t.status

abbrev pub has_id : ℕ → Tariff → Bool
has_id id t = t.id == id

active-rows :
    (now : ℕ) (user : Option ℕ) (id : ℕ) (ts : List Tariff)
    → count is_in_force (map (activate_row now user id) ts) ≡ count (has_id id) ts
unfolding count activate_row
active-rows now user id [] = refl
active-rows now user id (t ∷ ts) = ground (arith, active-rows now user id ts)

found-count :
    (id : ℕ) (ts : List Tariff) {t : Tariff}
    → first (has_id id) ts ≡ some t
    → 1 ≤ count (has_id id) ts
unfolding first count
found-count id [] h = cc
found-count id (x ∷ ts) {t} h = ground (arith, found-count id ts {t = t})

-- Where identifiers are unique, an activation leaves exactly one tariff active.
pub activation_is_exclusive :
    (now : ℕ) (user : Option ℕ) (id : ℕ) (ts ts' : List Tariff)
    → count (has_id id) ts ≤ 1
    → activate_tariff now user id ts ≡ some ts'
    → count is_in_force ts' ≡ 1
unfolding activate_tariff
activation_is_exclusive now user id ts ts' one h = activated (first (has_id id) ts) refl h
  where
    activated :
        (o : Option Tariff)
        → first (has_id id) ts ≡ o
        → elim o [ none ↦ none | some _ ↦ some (map (activate_row now user id) ts) ] ≡ some ts'
        → count is_in_force ts' ≡ 1
    activated none found e = cc
    activated (some t) found e =
        subst (λ x. count is_in_force x ≡ 1) (some_same e)
          (omega (arith, active-rows now user id ts, found-count id ts found))

-- The tariff that is charged is active and in force, and none that is so has a higher priority.
pub tariff_is_highest :
    (now : ℕ) (ts : List Tariff) {t : Tariff}
    → get_active_tariff now ts ≡ some t
    → (is_in_force t ≡ true)
      × (in_force now t ≡ true)
      × (count (λ u. is_in_force u && (in_force now u && ltb t.priority u.priority)) ts ≡ 0)
unfolding get_active_tariff
tariff_is_highest now ts {t} h =
    let active = select is_in_force ts in
    let by_age = sort_desc (λ u. u.created_at) active in
    let all_active : All (λ u. is_in_force u ≡ true) (sort_desc (λ u. u.priority) by_age) =
      All-sort (λ u. is_in_force u ≡ true) (λ u. u.priority) by_age
        (All-sort (λ u. is_in_force u ≡ true) (λ u. u.created_at) active
          (All-select (λ u. is_in_force u ≡ true) is_in_force ts (λ u k. k))) in
    let higher : Tariff → Bool = λ u. in_force now u && ltb t.priority u.priority in
    (
      All-first (λ u. is_in_force u ≡ true) (in_force now) (sort_desc (λ u. u.priority) by_age)
          all_active h,
      first_passes (in_force now) (sort_desc (λ u. u.priority) by_age) h,
      sym (count-select higher is_in_force ts)
          ∙ (sym (count-sort (λ u. u.created_at) higher active)
              ∙ first-sort (λ u. u.priority) (in_force now) by_age h),
    )
