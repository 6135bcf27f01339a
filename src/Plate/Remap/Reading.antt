-- ===== src/Plate/Remap/Reading.antt =====
-- backend/app/shared/plate.py: what NORMALIZED_PARTS_REGEX finds in a plate that is put together.
use parking_system.Common.{
  ℕ, ◌≡◌, refl, subst, Bool, true, false, ◌&&◌, Option, none, some, some_same, [], ◌∷◌, ◌++◌, ◌==◌,
  arith, inl, inr, Bool-cases,
}
use parking_system.Python.{Text, is_upper}
use parking_system.Plate.{Parts, province_part}
use parking_system.Plate.Remap.{
  match_parts, of_groups, with_group, parts_letters, parts_number, parts_end, assembled,
}

-- Letters as the expression admits them: one or two.
unfoldable pub is_code : Text → Bool
unfolding is_upper
is_code (l ∷ []) = is_upper l
is_code (l ∷ k ∷ []) = is_upper l && is_upper k
is_code _ = false

unfoldable pub is_province : (ℕ → Bool) → Option Text → Bool
is_province d none = true
is_province d (some (e ∷ f ∷ [])) = d e && d f
is_province d (some _) = false

unfoldable pub is_number : (ℕ → Bool) → Text → Bool
is_number d (a ∷ b ∷ c ∷ []) = d a && d b && d c
is_number d _ = false

unfoldable pub is_two : (ℕ → Bool) → Text → Bool
is_two d (a ∷ b ∷ []) = d a && d b
is_two d _ = false

-- Groups as the expression finds them.
pub record IsParts (d : ℕ → Bool) (p : Parts) : Type 0 where
  pub two : is_two d p.two_digits ≡ true
  pub letters : is_code p.letters ≡ true
  pub three : is_number d p.three_digits ≡ true
  pub province : is_province d p.province ≡ true

end_found :
    (d : ℕ → Bool) (s : Text) {o : Option Text} → parts_end d s ≡ some o → is_province d o ≡ true
unfolding parts_end is_province
end_found d [] {o} h = subst (λ x. is_province d x ≡ true) (some_same h) refl
end_found d (a ∷ []) {o} h = elim (Bool-cases (a == 10)) [
  | inl hit ↦ subst (λ x. is_province d x ≡ true) (some_same (simp hit at h)) refl
  | inr miss ↦ cc (simp miss at h)
]
end_found d (a ∷ b ∷ []) {o} h = cc
end_found d (a ∷ b ∷ e ∷ []) {o} h = cc
end_found d (a ∷ b ∷ e ∷ f ∷ []) {o} h =
    elim (Bool-cases ((a == b'I') && (b == b'R') && (d e && d f))) [
      | inl hit ↦ subst (λ x. is_province d x ≡ true) (some_same (simp hit at h)) (ground arith)
      | inr miss ↦ cc (simp miss at h)
    ]
end_found d (a ∷ b ∷ e ∷ f ∷ g ∷ []) {o} h =
    elim (Bool-cases ((a == b'I') && (b == b'R') && (d e && d f) && (g == 10))) [
      | inl hit ↦ subst (λ x. is_province d x ≡ true) (some_same (simp hit at h)) (ground arith)
      | inr miss ↦ cc (simp miss at h)
    ]
end_found d (a ∷ b ∷ e ∷ f ∷ g ∷ k ∷ s) {o} h = cc

-- What the tail of a plate is read as.
end_read :
    (d : ℕ → Bool) (o : Option Text)
    → is_province d o ≡ true
    → parts_end d (province_part o) ≡ some o
unfolding parts_end is_province
end_read d none h = refl
end_read d (some []) h = cc
end_read d (some (e ∷ [])) h = cc
end_read d (some (e ∷ f ∷ [])) h = ground arith
end_read d (some (e ∷ f ∷ g ∷ s)) h = cc

number_read :
    (d : ℕ → Bool) (three : Text) (o : Option Text)
    → is_number d three ≡ true
    → is_province d o ≡ true
    → parts_number d (three ++ province_part o) ≡ some (three, o)
unfolding parts_number is_number
number_read d (a ∷ b ∷ c ∷ []) o h k = rw (h, end_read d o k) refl
number_read d [] o h k = cc
number_read d (a ∷ []) o h k = cc
number_read d (a ∷ b ∷ []) o h k = cc
number_read d (a ∷ b ∷ c ∷ e ∷ s) o h k = cc

number_found :
    (d : ℕ → Bool) (s : Text) {t : Text × Option Text}
    → parts_number d s ≡ some t
    → (is_number d t.0 ≡ true) × (is_province d t.1 ≡ true)
unfolding parts_number is_number
number_found d [] {t} h = cc
number_found d (a ∷ []) {t} h = cc
number_found d (a ∷ b ∷ []) {t} h = cc
number_found d (a ∷ b ∷ c ∷ s) {t} h = elim (Bool-cases (d a && d b && d c)) [
  | inr miss ↦ cc (simp miss at h)
  | inl hit ↦ by_end hit (parts_end d s) refl (simp hit at h)
]
  where
    by_end :
        d a && d b && d c ≡ true
        → (q : Option (Option Text)) → parts_end d s ≡ q
        → with_group (a ∷ b ∷ c ∷ []) q ≡ some t
        → (is_number d t.0 ≡ true) × (is_province d t.1 ≡ true)
    by_end hit none e k = cc
    by_end hit (some p) e k =
        subst (λ t. (is_number d t.0 ≡ true) × (is_province d t.1 ≡ true)) (some_same k)
          (hit, end_found d s e)

letters_found :
    (d : ℕ → Bool) (s : Text) {t : Text × (Text × Option Text)}
    → parts_letters d s ≡ some t
    → (is_code t.0 ≡ true) × ((is_number d t.1.0 ≡ true) × (is_province d t.1.1 ≡ true))
unfolding parts_letters is_code
letters_found d [] {t} h = cc
letters_found d (l ∷ []) {t} h = cc
letters_found d (l ∷ k ∷ s) {t} h = elim (Bool-cases (is_upper l)) [
  | inr miss ↦ cc (simp miss at h)
  | inl upper ↦ elim (Bool-cases (is_upper k)) [
    | inl both ↦
        two_letters upper both (parts_number d s) (parts_number d (k ∷ s)) refl refl
          (simp (upper, both) at h)
    | inr one ↦ one_letter upper (parts_number d (k ∷ s)) refl (simp (upper, one) at h)
  ]
]
  where
    Found : Type 0
    Found = (is_code t.0 ≡ true) × ((is_number d t.1.0 ≡ true) × (is_province d t.1.1 ≡ true))

    one_letter :
        is_upper l ≡ true
        → (q : Option (Text × Option Text)) → parts_number d (k ∷ s) ≡ q
        → with_group (l ∷ []) q ≡ some t
        → Found
    one_letter upper none e f = cc
    one_letter upper (some n) e f =
        subst
          (λ t. (is_code t.0 ≡ true) × ((is_number d t.1.0 ≡ true) × (is_province d t.1.1 ≡ true)))
          (some_same f) (upper, number_found d (k ∷ s) e)

    two_letters :
        is_upper l ≡ true
        → is_upper k ≡ true
        → (q r : Option (Text × Option Text)) → parts_number d s ≡ q
        → parts_number d (k ∷ s) ≡ r
        → elim q [ some n ↦ with_group (l ∷ k ∷ []) (some n) | none ↦ with_group (l ∷ []) r ]
          ≡ some t
        → Found
    two_letters upper both none r e e' f = one_letter upper r e' f
    two_letters upper both (some n) r e e' f =
        subst
          (λ t. (is_code t.0 ≡ true) × ((is_number d t.1.0 ≡ true) × (is_province d t.1.1 ≡ true)))
          (some_same f) (ground arith, number_found d s e)

pub parts_found : (d : ℕ → Bool) (s : Text) {p : Parts} → match_parts d s ≡ some p → IsParts d p
unfolding match_parts is_two
parts_found d [] {p} h = cc
parts_found d (a ∷ []) {p} h = cc
parts_found d (a ∷ b ∷ s) {p} h = elim (Bool-cases (d a && d b)) [
  | inr miss ↦ cc (simp miss at h)
  | inl hit ↦ by_letters hit (parts_letters d s) refl (simp hit at h)
]
  where
    by_letters :
        d a && d b ≡ true
        → (q : Option (Text × (Text × Option Text))) → parts_letters d s ≡ q
        → of_groups (with_group (a ∷ b ∷ []) q) ≡ some p
        → IsParts d p
    by_letters hit none e k = cc
    by_letters hit (some t) e k =
        let (letters, (three, province)) = letters_found d s e in
        subst (IsParts d) (some_same k)
          (record { two = hit; letters = letters; three = three; province = province })

-- No digit is a letter.
abbrev pub AreApart : (ℕ → Bool) → Type 0
AreApart d = (c : ℕ) → d c ≡ true → is_upper c ≡ false

letters_read :
    (d : ℕ → Bool) (code three : Text) (o : Option Text)
    → AreApart d
    → is_code code ≡ true
    → is_number d three ≡ true
    → is_province d o ≡ true
    → parts_letters d (code ++ (three ++ province_part o)) ≡ some (code, (three, o))
unfolding parts_letters is_code is_number
letters_read d [] three o apart h n k = cc
letters_read d (l ∷ k ∷ m ∷ s) three o apart h n e = cc
letters_read d (l ∷ k ∷ []) three o apart h n e =
    let first_upper : is_upper l ≡ true = ground arith in
    let second_upper : is_upper k ≡ true = ground arith in
    rw (first_upper, second_upper, number_read d three o n e) refl
letters_read d (l ∷ []) [] o apart h n e = cc
letters_read d (l ∷ []) (a ∷ []) o apart h n e = cc
letters_read d (l ∷ []) (a ∷ b ∷ []) o apart h n e = cc
letters_read d (l ∷ []) (a ∷ b ∷ c ∷ f ∷ s) o apart h n e = cc
letters_read d (l ∷ []) (a ∷ b ∷ c ∷ []) o apart h n e =
    let digit : d a ≡ true = ground arith in
    rw (h, apart a digit, number_read d (a ∷ b ∷ c ∷ []) o n e) refl

-- A plate that is put together from groups is read as these groups.
pub parts_read :
    (d : ℕ → Bool) (p : Parts) (code : Text)
    → AreApart d
    → IsParts d p
    → is_code code ≡ true
    → match_parts d (assembled p code) ≡ some (record p { letters = code })
unfolding match_parts is_two
parts_read d p code apart shape h =
    by_two p.two_digits shape.two
      (letters_read d code p.three_digits p.province apart h shape.three shape.province)
  where
    by_two :
        (two : Text)
        → is_two d two ≡ true
        → parts_letters d (code ++ (p.three_digits ++ province_part p.province))
          ≡ some (code, (p.three_digits, p.province))
        → match_parts d (two ++ (code ++ (p.three_digits ++ province_part p.province)))
          ≡ some (record p { two_digits = two; letters = code })
    by_two [] e k = cc
    by_two (a ∷ []) e k = cc
    by_two (a ∷ b ∷ c ∷ s) e k = cc
    by_two (a ∷ b ∷ []) e k = rw (e, k) refl
