-- ===== src/Common/Lists.antt =====
-- Rows of a table and texts: queries and updates on lists, with Boolean tests as predicates.
use mathlib.Core.Path.{◌≡◌, refl, subst, ◌∙◌}
use mathlib.Core.Bool.{Bool, true, false, ◌&&◌, ◌||◌}
use mathlib.Core.Option.{Option, none, some}
use mathlib.Core.List.{List, [], ◌∷◌, ◌++◌}
use Prim.Native.Nat.{ℕ, suc, ◌+◌, ◌≤◌}
use mathlib.Core.Logic.{inl, inr}
use native.Mathlib.Omega.{arith}
use parking_system.Common.Tests.{ltb, ◌==◌, if◌then◌else◌, Bool-cases}

-- A predicate of every entry.
abbrev pub All {ℓ κ} : {A : Type ℓ} → (A → Type κ) → List A → Type κ
All P [] = Unit
All P (x ∷ xs) = P x × All P xs

module _ {ℓ} {A : Type ℓ} where
  abbrev pub length : List A → ℕ
  length [] = 0
  length (x ∷ xs) = suc (length xs)

  -- The entries that pass a test, in order.
  unfoldable pub select : (A → Bool) → List A → List A
  select p [] = []
  select p (x ∷ xs) = let rest = select p xs in if p x then x ∷ rest else rest

  -- The first entry that passes a test.
  unfoldable pub first : (A → Bool) → List A → Option A
  first p [] = none
  first p (x ∷ xs) = if p x then some x else first p xs

  -- The entry of largest key; of several, the first.
  unfoldable pub latest : (A → ℕ) → List A → Option A
  latest key [] = none
  latest key (x ∷ xs) = elim (latest key xs) [
    | none ↦ some x
    | some y ↦ if ltb (key x) (key y) then some y else some x
  ]

  -- Insertion behind the entries of a larger or an equal key, and the stable sort that it gives.
  unfoldable pub insert_desc : (A → ℕ) → A → List A → List A
  insert_desc key a [] = a ∷ []
  insert_desc key a (x ∷ xs) =
      let rest = insert_desc key a xs in if ltb (key x) (key a) then a ∷ x ∷ xs else x ∷ rest

  unfoldable pub sort_desc : (A → ℕ) → List A → List A
  unfolding insert_desc
  sort_desc key [] = []
  sort_desc key (x ∷ xs) = insert_desc key x (sort_desc key xs)

  -- UPDATE … SET: the entries that pass the test are changed.
  unfoldable pub update : (A → Bool) → (A → A) → List A → List A
  update p f [] = []
  update p f (x ∷ xs) = (if p x then f x else x) ∷ update p f xs

  unfoldable pub count : (A → Bool) → List A → ℕ
  count p [] = 0
  count p (x ∷ xs) = (if p x then 1 else 0) + count p xs

  unfoldable pub total : (A → ℕ) → List A → ℕ
  total f [] = 0
  total f (x ∷ xs) = f x + total f xs

  unfoldable pub any : (A → Bool) → List A → Bool
  any p [] = false
  any p (x ∷ xs) = p x || any p xs

  unfoldable pub all : (A → Bool) → List A → Bool
  all p [] = true
  all p (x ∷ xs) = p x && all p xs

  pub length-append : (xs ys : List A) → length (xs ++ ys) ≡ length xs + length ys
  length-append [] ys = omega arith
  length-append (x ∷ xs) ys = omega (arith, length-append xs ys)

  pub total-append : (f : A → ℕ) (xs ys : List A) → total f (xs ++ ys) ≡ total f xs + total f ys
  unfolding total
  total-append f [] ys = omega arith
  total-append f (x ∷ xs) ys = omega (arith, total-append f xs ys)

  pub count-append : (p : A → Bool) (xs ys : List A) → count p (xs ++ ys) ≡ count p xs + count p ys
  unfolding count
  count-append p [] ys = omega arith
  count-append p (x ∷ xs) ys = omega (arith, count-append p xs ys)

  pub first-append_none :
      (p : A → Bool) (xs ys : List A) → first p xs ≡ none → first p (xs ++ ys) ≡ first p ys
  unfolding first
  first-append_none p [] ys h = refl
  first-append_none p (x ∷ xs) ys h = ground (arith, first-append_none p xs ys)

  -- What is found passes the test.
  pub first_passes : (p : A → Bool) (xs : List A) {a : A} → first p xs ≡ some a → p a ≡ true
  unfolding first
  first_passes p [] {a} h = cc
  first_passes p (x ∷ xs) {a} h = ground (arith, first_passes p xs {a = a})

  pub first-none-count : (p : A → Bool) (xs : List A) → first p xs ≡ none → count p xs ≡ 0
  unfolding first count
  first-none-count p [] h = refl
  first-none-count p (x ∷ xs) h = ground (arith, first-none-count p xs)

  -- One more row of an index in which its key is not yet.
  pub count_new :
      (p : List ℕ → A → Bool) (key k : List ℕ) (xs : List A) (a : A)
      → (p k a ≡ true → key ≡ k)
      → count (p k) xs ≤ 1
      → count (p key) xs ≡ 0
      → count (p k) (xs ++ a ∷ []) ≤ 1
  unfolding count
  count_new p key k xs a only h fresh = elim (Bool-cases (p k a)) [
    | inl hit ↦
        let zero_now = subst (λ j. count (p j) xs ≡ 0) (only hit) fresh in
        rw (count-append (p k) xs (a ∷ []), zero_now) (ground arith)
    | inr other ↦ rw (count-append (p k) xs (a ∷ []), other) (omega arith)
  ]

  -- What a query's latest row is passes the query's test.
  pub latest-select :
      (key : A → ℕ) (p : A → Bool) (xs : List A) {a : A}
      → latest key (select p xs) ≡ some a
      → p a ≡ true
  unfolding latest select
  latest-select key p [] h = cc
  latest-select key p (x ∷ xs) {a} h = elim (Bool-cases (p x)) [
    | inl hit ↦ later (latest key (select p xs)) hit (latest-select key p xs) refl (simp hit at h)
    | inr miss ↦ latest-select key p xs (simp miss at h)
  ]
    where
      later :
          (o : Option A)
          → p x ≡ true
          → (latest key (select p xs) ≡ some a → p a ≡ true)
          → latest key (select p xs) ≡ o
          → elim o [ none ↦ some x | some y ↦ if ltb (key x) (key y) then some y else some x ]
            ≡ some a
          → p a ≡ true
      later none hit rest e k = cc
      later (some y) hit rest e k = elim (Bool-cases (ltb (key x) (key y))) [
        | inl less ↦ rest (e ∙ simp less at k)
        | inr other ↦ cc (hit, simp other at k)
      ]

-- Equality of texts, lists of code points.
unfoldable pub text_eq : List ℕ → List ℕ → Bool
text_eq [] [] = true
text_eq [] (y ∷ ys) = false
text_eq (x ∷ xs) [] = false
text_eq (x ∷ xs) (y ∷ ys) = (x == y) && text_eq xs ys

pub text_eq_refl : (s : List ℕ) → text_eq s s ≡ true
unfolding text_eq
text_eq_refl [] = refl
text_eq_refl (x ∷ xs) = ground (arith, text_eq_refl xs)

pub text_eq→eq : (s t : List ℕ) → text_eq s t ≡ true → s ≡ t
unfolding text_eq
text_eq→eq [] [] h = refl
text_eq→eq [] (y ∷ ys) h = cc
text_eq→eq (x ∷ xs) [] h = cc
text_eq→eq (x ∷ xs) (y ∷ ys) h = ground (arith, text_eq→eq xs ys)
