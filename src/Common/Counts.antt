-- ===== src/Common/Counts.antt =====
-- How many rows pass a test, before and after an update, a selection and a query.
use mathlib.Core.Path.{◌≡◌, refl}
use mathlib.Core.Bool.{Bool, true, false}
use mathlib.Core.Option.{some}
use mathlib.Core.List.{List, [], ◌∷◌, ◌++◌}
use mathlib.Core.Logic.{inl, inr}
use Prim.Native.Nat.{◌≤◌}
use native.Mathlib.Omega.{arith}
use parking_system.Common.Tests.{Bool-cases}
use parking_system.Common.Lists.{select, first, update, count, any}

module _ {ℓ} {A : Type ℓ} where
  pub count-update :
      (q p : A → Bool) (f : A → A) (xs : List A)
      → ((a : A) → q (f a) ≡ q a)
      → count q (update p f xs) ≡ count q xs
  unfolding count update
  count-update q p f [] same = refl
  count-update q p f (x ∷ xs) same = elim (Bool-cases (p x)) [
    | inl hit ↦ rw (hit, same x) (omega (arith, count-update q p f xs same))
    | inr miss ↦ rw miss (omega (arith, count-update q p f xs same))
  ]

  pub count-update_le :
      (q p : A → Bool) (f : A → A) (xs : List A)
      → ((a : A) → q (f a) ≡ true → q a ≡ true)
      → count q (update p f xs) ≤ count q xs
  unfolding count update
  count-update_le q p f [] less = omega arith
  count-update_le q p f (x ∷ xs) less = ground (arith, less x, count-update_le q p f xs less)

  pub first-some-count : (p : A → Bool) (xs : List A) {a : A} → first p xs ≡ some a → 1 ≤ count p xs
  unfolding first count
  first-some-count p [] {a} h = cc
  first-some-count p (x ∷ xs) {a} h = ground (arith, first-some-count p xs {a = a})

  pub count-select_le : (q p : A → Bool) (xs : List A) → count q (select p xs) ≤ count q xs
  unfolding count select
  count-select_le q p [] = omega arith
  count-select_le q p (x ∷ xs) = ground (arith, count-select_le q p xs)

  -- A selection that keeps all that passes the test.
  pub count-select_same :
      (q p : A → Bool) (xs : List A)
      → ((a : A) → q a ≡ true → p a ≡ true)
      → count q (select p xs) ≡ count q xs
  unfolding count select
  count-select_same q p [] keep = refl
  count-select_same q p (x ∷ xs) keep = ground (arith, keep x, count-select_same q p xs keep)

  pub any-none-count : (p : A → Bool) (xs : List A) → any p xs ≡ false → count p xs ≡ 0
  unfolding any count
  any-none-count p [] h = refl
  any-none-count p (x ∷ xs) h = ground (arith, any-none-count p xs)

  pub any-append_left : (p : A → Bool) (xs ys : List A) → any p xs ≡ true → any p (xs ++ ys) ≡ true
  unfolding any
  any-append_left p [] ys h = cc
  any-append_left p (x ∷ xs) ys h = ground (arith, any-append_left p xs ys)

  pub any_last : (p : A → Bool) (xs : List A) (a : A) → p a ≡ true → any p (xs ++ a ∷ []) ≡ true
  unfolding any
  any_last p [] a h = ground arith
  any_last p (x ∷ xs) a h = ground (arith, any_last p xs a)
