-- ===== src/Plate/Remap/Texts.antt =====
-- backend/app/shared/plate.py: the groups of NORMALIZED_PARTS_REGEX, put together, are the text.
use parking_system.Common.{
  ℕ, ◌≡◌, refl, ap, subst, Bool, true, false, ◌&&◌, Option, none, some, some_same, [], ◌∷◌, ◌++◌,
  ◌==◌, ==→eq, if◌then◌else◌, arith, inl, inr, Bool-cases,
}
use parking_system.Python.{Text, is_upper}
use parking_system.Plate.{Parts, province_part}
use parking_system.Plate.Remap.{
  match_parts, of_groups, with_group, parts_letters, parts_number, parts_end, assembled,
}

-- A text without the line break at its end, if it has one.
abbrev pub without_break : Text → Text
without_break [] = []
without_break (c ∷ []) = if c == 10 then [] else c ∷ []
without_break (c ∷ k ∷ s) = c ∷ without_break (k ∷ s)

digit_stays : (d : ℕ → Bool) (c : ℕ) → d 10 ≡ false → d c ≡ true → (c == 10) ≡ false
digit_stays d c no_digit h = elim (Bool-cases (c == 10)) [
  | inr miss ↦ miss
  | inl hit ↦ cc (subst (λ k. d k ≡ true) (==→eq c 10 hit) h, no_digit)
]

end_text :
    (d : ℕ → Bool) (c : ℕ) (s : Text) {o : Option Text}
    → d 10 ≡ false
    → d c ≡ true
    → parts_end d s ≡ some o
    → c ∷ province_part o ≡ without_break (c ∷ s)
unfolding parts_end
end_text d c [] {o} nl digit h =
    subst (λ o. c ∷ province_part o ≡ without_break (c ∷ [])) (some_same h)
      (rw (digit_stays d c nl digit) refl)
end_text d c (a ∷ []) {o} nl digit h = elim (Bool-cases (a == 10)) [
  | inl hit ↦
      subst (λ o. c ∷ province_part o ≡ without_break (c ∷ a ∷ [])) (some_same (simp hit at h))
        (rw hit refl)
  | inr miss ↦ cc (simp miss at h)
]
end_text d c (a ∷ b ∷ []) {o} nl digit h = cc
end_text d c (a ∷ b ∷ e ∷ []) {o} nl digit h = cc
end_text d c (a ∷ b ∷ e ∷ f ∷ []) {o} nl digit h =
    elim (Bool-cases ((a == b'I') && (b == b'R') && (d e && d f))) [
      | inl hit ↦
          let stays = digit_stays d f nl (ground arith) in
          subst (λ o. c ∷ province_part o ≡ without_break (c ∷ a ∷ b ∷ e ∷ f ∷ []))
            (some_same (simp hit at h)) (ground (arith, stays))
      | inr miss ↦ cc (simp miss at h)
    ]
end_text d c (a ∷ b ∷ e ∷ f ∷ g ∷ []) {o} nl digit h =
    elim (Bool-cases ((a == b'I') && (b == b'R') && (d e && d f) && (g == 10))) [
      | inl hit ↦
          subst (λ o. c ∷ province_part o ≡ without_break (c ∷ a ∷ b ∷ e ∷ f ∷ g ∷ []))
            (some_same (simp hit at h)) (ground arith)
      | inr miss ↦ cc (simp miss at h)
    ]
end_text d c (a ∷ b ∷ e ∷ f ∷ g ∷ k ∷ s) {o} nl digit h = cc

number_text :
    (d : ℕ → Bool) (s : Text) {t : Text × Option Text}
    → d 10 ≡ false
    → parts_number d s ≡ some t
    → t.0 ++ province_part t.1 ≡ without_break s
unfolding parts_number
number_text d [] {t} nl h = cc
number_text d (a ∷ []) {t} nl h = cc
number_text d (a ∷ b ∷ []) {t} nl h = cc
number_text d (a ∷ b ∷ c ∷ s) {t} nl h = elim (Bool-cases (d a && d b && d c)) [
  | inr miss ↦ cc (simp miss at h)
  | inl hit ↦ by_end (ground arith) (parts_end d s) refl (simp hit at h)
]
  where
    by_end :
        d c ≡ true
        → (q : Option (Option Text)) → parts_end d s ≡ q
        → with_group (a ∷ b ∷ c ∷ []) q ≡ some t
        → t.0 ++ province_part t.1 ≡ without_break (a ∷ b ∷ c ∷ s)
    by_end digit none e k = cc
    by_end digit (some p) e k =
        subst (λ t. t.0 ++ province_part t.1 ≡ without_break (a ∷ b ∷ c ∷ s)) (some_same k)
          (ap (λ r. a ∷ b ∷ r) (end_text d c s nl digit e))

-- A number of one more letter in front.
second_text :
    (d : ℕ → Bool) (k : ℕ) (s : Text) {n : Text × Option Text}
    → d 10 ≡ false
    → parts_number d s ≡ some n
    → k ∷ n.0 ++ province_part n.1 ≡ without_break (k ∷ s)
unfolding parts_number
second_text d k [] {n} nl h = cc
second_text d k (a ∷ s) {n} nl h = ap (λ w. k ∷ w) (number_text d (a ∷ s) nl h)

abbrev text_of : Text × (Text × Option Text) → Text
text_of (letters, (three, province)) = letters ++ (three ++ province_part province)

letters_text :
    (d : ℕ → Bool) (s : Text) {t : Text × (Text × Option Text)}
    → d 10 ≡ false
    → parts_letters d s ≡ some t
    → text_of t ≡ without_break s
unfolding parts_letters
letters_text d [] {t} nl h = cc
letters_text d (l ∷ []) {t} nl h = cc
letters_text d (l ∷ k ∷ s) {t} nl h = elim (Bool-cases (is_upper l)) [
  | inr miss ↦ cc (simp miss at h)
  | inl upper ↦
      split (if is_upper k then parts_number d s else none) (parts_number d (k ∷ s))
        (two (is_upper k)) refl (simp upper at h)
]
  where
    two :
        (b : Bool) (n : Text × Option Text)
        → (if b then parts_number d s else none) ≡ some n
        → k ∷ n.0 ++ province_part n.1 ≡ without_break (k ∷ s)
    two false n e = cc
    two true n e = second_text d k s nl e

    split :
        (q r : Option (Text × Option Text))
        → ((n : Text × Option Text)
            → q ≡ some n
            → k ∷ n.0 ++ province_part n.1 ≡ without_break (k ∷ s))
        → parts_number d (k ∷ s) ≡ r
        → elim q [ some n ↦ with_group (l ∷ k ∷ []) (some n) | none ↦ with_group (l ∷ []) r ]
          ≡ some t
        → text_of t ≡ without_break (l ∷ k ∷ s)
    split (some n) r f e g =
        subst (λ t. text_of t ≡ without_break (l ∷ k ∷ s)) (some_same g)
          (ap (λ w. l ∷ w) (f n refl))
    split none none f e g = cc
    split none (some n) f e g =
        subst (λ t. text_of t ≡ without_break (l ∷ k ∷ s)) (some_same g)
          (ap (λ w. l ∷ w) (number_text d (k ∷ s) nl e))

-- The groups of a text, put together, are the text without a line break at its end.
pub parts_text :
    (d : ℕ → Bool) (s : Text) {p : Parts}
    → d 10 ≡ false
    → match_parts d s ≡ some p
    → assembled p p.letters ≡ without_break s
unfolding match_parts
parts_text d [] {p} nl h = cc
parts_text d (a ∷ []) {p} nl h = cc
parts_text d (a ∷ b ∷ s) {p} nl h = elim (Bool-cases (d a && d b)) [
  | inr miss ↦ cc (simp miss at h)
  | inl hit ↦ by_letters (parts_letters d s) refl (simp hit at h)
]
  where
    after_two :
        (s : Text) {t : Text × (Text × Option Text)}
        → parts_letters d s ≡ some t
        → text_of t ≡ without_break s
        → a ∷ b ∷ text_of t ≡ without_break (a ∷ b ∷ s)
    after_two [] {t} e k = cc
    after_two (c ∷ s) {t} e k = ap (λ w. a ∷ b ∷ w) k

    by_letters :
        (q : Option (Text × (Text × Option Text)))
        → parts_letters d s ≡ q
        → of_groups (with_group (a ∷ b ∷ []) q) ≡ some p
        → assembled p p.letters ≡ without_break (a ∷ b ∷ s)
    by_letters none e k = cc
    by_letters (some t) e k =
        subst (λ p. assembled p p.letters ≡ without_break (a ∷ b ∷ s)) (some_same k)
          (after_two s e (letters_text d s nl e))
