-- ===== src/Common/Sorted.antt =====
-- ORDER BY … DESC: the first row that passes a test has the largest key of all that pass it.
use mathlib.Core.Path.{◌≡◌, refl, sym, ◌∙◌, subst}
use mathlib.Core.Bool.{Bool, true, ◌&&◌}
use mathlib.Core.Option.{some}
use mathlib.Core.List.{List, [], ◌∷◌}
use mathlib.Core.Logic.{inl, inr}
use Prim.Native.Nat.{ℕ, ◌+◌, ◌≤◌}
use native.Mathlib.Omega.{arith}
use parking_system.Common.Tests.{some_same, ltb, if◌then◌else◌, Bool-cases}
use parking_system.Common.Lists.{All, select, first, insert_desc, sort_desc, count}

module _ {A : Type 0} (P : A → Type 0) where
  pub All-select : (q : A → Bool) (xs : List A) → ((x : A) → q x ≡ true → P x) → All P (select q xs)
  unfolding select
  All-select q [] h = tt
  All-select q (x ∷ xs) h = elim (Bool-cases (q x)) [
    | inl hit ↦ rw hit (h x hit, All-select q xs h)
    | inr miss ↦ rw miss (All-select q xs h)
  ]

  All-insert : (key : A → ℕ) (a : A) (xs : List A) → P a → All P xs → All P (insert_desc key a xs)
  unfolding insert_desc
  All-insert key a [] h b = (h, tt)
  All-insert key a (x ∷ xs) h (b, bs) = elim (Bool-cases (ltb (key x) (key a))) [
    | inl less ↦ rw less (h, (b, bs))
    | inr other ↦ rw other (b, All-insert key a xs h bs)
  ]

  pub All-sort : (key : A → ℕ) (xs : List A) → All P xs → All P (sort_desc key xs)
  unfolding sort_desc
  All-sort key [] b = tt
  All-sort key (x ∷ xs) (b, bs) = All-insert key x (sort_desc key xs) b (All-sort key xs bs)

  -- What is found is one of the rows.
  pub All-first : (p : A → Bool) (xs : List A) {a : A} → All P xs → first p xs ≡ some a → P a
  unfolding first
  All-first p [] b h = cc
  All-first p (x ∷ xs) {a} (b, bs) h = elim (Bool-cases (p x)) [
    | inl hit ↦ subst P (some_same (simp hit at h)) b
    | inr miss ↦ All-first p xs bs (simp miss at h)
  ]

pub count-select :
    {A : Type 0} (r q : A → Bool) (xs : List A) → count r (select q xs) ≡ count (λ x. q x && r x) xs
unfolding count select
count-select r q [] = refl
count-select r q (x ∷ xs) = ground (arith, count-select r q xs)

module _ {A : Type 0} (key : A → ℕ) where
  abbrev IsBelow : ℕ → List A → Type 0
  IsBelow n xs = All (λ y. key y ≤ n) xs

  abbrev IsDescending : List A → Type 0
  IsDescending [] = Unit
  IsDescending (x ∷ xs) = IsBelow (key x) xs × IsDescending xs

  IsBelow-mono : (m n : ℕ) (xs : List A) → m ≤ n → IsBelow m xs → IsBelow n xs
  IsBelow-mono m n [] h b = tt
  IsBelow-mono m n (x ∷ xs) h (b, bs) = (omega arith, IsBelow-mono m n xs h bs)

  insert-IsDescending :
      (a : A) (xs : List A) → IsDescending xs → IsDescending (insert_desc key a xs)
  unfolding insert_desc
  insert-IsDescending a [] d = (tt, tt)
  insert-IsDescending a (x ∷ xs) (b, d) = elim (Bool-cases (ltb (key x) (key a))) [
    | inl less ↦ rw less ((ground arith, IsBelow-mono (key x) (key a) xs (ground arith) b), (b, d))
    | inr other ↦
        rw other
          (All-insert (λ y. key y ≤ key x) key a xs (ground arith) b, insert-IsDescending a xs d)
  ]

  sort-IsDescending : (xs : List A) → IsDescending (sort_desc key xs)
  unfolding sort_desc
  sort-IsDescending [] = tt
  sort-IsDescending (x ∷ xs) = insert-IsDescending x (sort_desc key xs) (sort-IsDescending xs)

  count-insert :
      (q : A → Bool) (a : A) (xs : List A)
      → count q (insert_desc key a xs) ≡ (if q a then 1 else 0) + count q xs
  unfolding insert_desc count
  count-insert q a [] = refl
  count-insert q a (x ∷ xs) = ground (arith, count-insert q a xs)

  pub count-sort : (q : A → Bool) (xs : List A) → count q (sort_desc key xs) ≡ count q xs
  unfolding sort_desc count
  count-sort q [] = refl
  count-sort q (x ∷ xs) = rw (count-insert q x (sort_desc key xs), count-sort q xs) refl

  -- A row that passes and has a larger key.
  abbrev pub better : (A → Bool) → A → A → Bool
  better p a x = p x && ltb (key a) (key x)

  none_better-IsBelow :
      (p : A → Bool) (a : A) (xs : List A) → IsBelow (key a) xs → count (better p a) xs ≡ 0
  unfolding count
  none_better-IsBelow p a [] b = refl
  none_better-IsBelow p a (x ∷ xs) (b, bs) = ground (arith, none_better-IsBelow p a xs bs)

  first_none_better :
      (p : A → Bool) (xs : List A) {a : A}
      → IsDescending xs
      → first p xs ≡ some a
      → count (better p a) xs ≡ 0
  unfolding first count
  first_none_better p [] d h = cc
  first_none_better p (x ∷ xs) {a} (b, d) h = elim (Bool-cases (p x)) [
    | inl hit ↦
        subst (λ z. count (better p z) (x ∷ xs) ≡ 0) (some_same (simp hit at h))
          (ground (arith, none_better-IsBelow p x xs b))
    | inr miss ↦ rw miss (omega (arith, first_none_better p xs {a = a} d (simp miss at h)))
  ]

  pub first-sort :
      (p : A → Bool) (xs : List A) {a : A}
      → first p (sort_desc key xs) ≡ some a
      → count (better p a) xs ≡ 0
  first-sort p xs {a} h =
      sym (count-sort (better p a) xs)
      ∙ first_none_better p (sort_desc key xs) (sort-IsDescending xs) h
