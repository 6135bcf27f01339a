-- ===== src/Agent/Reading.antt =====
-- gate-agent/agent/shared_plate.py against backend/app/shared/plate.py: where the two read alike.
use mathlib.Mathlib.Data.List.Basic.{map-reverse_aux}
use parking_system.Common.{
  ℕ, ◌≡◌, refl, sym, ◌∙◌, ap, Bool, true, false, ◌&&◌, ◌||◌, Option, none, some, [], ◌∷◌, ◌++◌, map,
  reverse, arith, if◌then◌else◌,
}
use parking_system.Python.{Python, Text, codes, strip, lstrip, upper_all, is_upper, is_lower}
use parking_system.Plate.{
  LetterMap, Parts, letter_map, get_letter_map, translate, translate_digit, translate_letter,
  prepare, match_tail, remove, replace_from, is_separator, iran_persian, iran_latin, ir,
  match_letters, match_plate, letter_code, letter_codes, or_x, province_part, render,
  normalize_text, normalize_plate, code_of,
}
use parking_system.Agent.{
  agent_digit, agent_letters, agent_prepare, agent_end, agent_groups, agent_join, agent_result,
  agent_match, agent_normalize, one_more, or_unknown, with_province,
}

digit_alike : (c : ℕ) → agent_digit c ≡ translate_digit c
unfolding agent_digit translate_digit
digit_alike c = ground arith

table_alike : agent_letters ≡ letter_map
unfolding agent_letters letter_map
table_alike = refl

end_alike : (d : ℕ → Bool) (s : Text) → agent_end d s ≡ match_tail d s
unfolding agent_end match_tail
end_alike d [] = refl
end_alike d (a ∷ []) = refl
end_alike d (a ∷ b ∷ []) = refl
end_alike d (a ∷ b ∷ c ∷ []) = ground arith
end_alike d (a ∷ b ∷ c ∷ e ∷ []) = ground arith
end_alike d (a ∷ b ∷ c ∷ e ∷ f ∷ []) = ground arith
end_alike d (a ∷ b ∷ c ∷ e ∷ f ∷ g ∷ []) = ground arith
end_alike d (a ∷ b ∷ c ∷ e ∷ f ∷ g ∷ h ∷ []) = ground arith
end_alike d (a ∷ b ∷ c ∷ e ∷ f ∷ g ∷ h ∷ i ∷ s) = ground arith

abbrev with_letter :
    ℕ
    → Option (Text × Option Text)
    → Option (Text × (Text × Option Text))
    → Option (Text × (Text × Option Text))
with_letter c o later = elim o [
  | some t ↦ some (c ∷ [], t)
  | none ↦ elim later [ none ↦ none | some (letters, t) ↦ some (c ∷ letters, t) ]
]

one_step :
    (o : Option (Text × Option Text)) (later : Option (Text × (Text × Option Text))) (c : ℕ)
    → elim o [ some end ↦ some (c ∷ [], end) | none ↦ one_more c later ] ≡ with_letter c o later
one_step (some t) later c = refl
one_step none none c = refl
one_step none (some (letters, t)) c = refl

groups_alike : (d : ℕ → Bool) (s : Text) → agent_groups d s ≡ match_letters d s
unfolding agent_groups match_letters
groups_alike d [] = refl
groups_alike d (c ∷ s) =
    one_step (agent_end d s) (agent_groups d s) c
    ∙ (ap (λ o. with_letter c o (agent_groups d s)) (end_alike d s)
        ∙ ap (with_letter c (match_tail d s)) (groups_alike d s))

one_letter :
    (o : Option Text) (latin : Bool) (c : ℕ) (rest : Text)
    → elim o [ some code ↦ code ++ rest | none ↦ if latin then c ∷ rest else rest ]
      ≡ elim o [ some code ↦ code | none ↦ if latin then c ∷ [] else [] ] ++ rest
one_letter (some code) latin c rest = refl
one_letter none true c rest = refl
one_letter none false c rest = refl

join_alike : (m : LetterMap) (s : Text) → agent_join m s ≡ letter_codes m s
unfolding agent_join letter_codes letter_code
join_alike m [] = refl
join_alike m (c ∷ s) =
    one_letter (code_of m c) (is_upper c || is_lower c) c (agent_join m s)
    ∙ ap (λ r. letter_code m c ++ r) (join_alike m s)

-- A map of the characters that keeps white space goes through strip.
module _ (py : Python) (f : ℕ → ℕ) (keeps : (c : ℕ) → py.is_space (f c) ≡ py.is_space c) where
  lstrip-translate : (s : Text) → lstrip py (translate f s) ≡ translate f (lstrip py s)
  unfolding lstrip translate
  lstrip-translate [] = refl
  lstrip-translate (c ∷ s) = ground (arith, keeps c, lstrip-translate s)

  translate-map : (s : Text) → translate f s ≡ map f s
  unfolding translate
  translate-map [] = refl
  translate-map (c ∷ s) = ap (λ t. f c ∷ t) (translate-map s)

  reverse-translate : (s : Text) → reverse (translate f s) ≡ translate f (reverse s)
  reverse-translate s =
      ap reverse (translate-map s)
      ∙ (sym (map-reverse_aux f s []) ∙ sym (translate-map (reverse s)))

  strip-translate : (s : Text) → strip py (translate f s) ≡ translate f (strip py s)
  unfolding strip
  strip-translate s =
      rw
        (
          lstrip-translate s,
          reverse-translate (lstrip py s),
          lstrip-translate (reverse (lstrip py s)),
          reverse-translate (lstrip py (reverse (lstrip py s))),
        )
        refl

digit_after : (c : ℕ) → agent_digit (translate_letter c) ≡ translate_letter (translate_digit c)
unfolding agent_digit translate_letter translate_digit
digit_after c = ground arith

digits_after :
    (s : Text)
    → translate agent_digit (translate translate_letter s)
      ≡ translate translate_letter (translate translate_digit s)
unfolding translate
digits_after [] = refl
digits_after (c ∷ s) = rw (digit_after c, digits_after s) refl

unknown_alike : (s : Text) → or_unknown s ≡ or_x s
unknown_alike [] = refl
unknown_alike (c ∷ s) = refl

province_alike : (o : Option Text) → with_province o ≡ province_part o
province_alike none = refl
province_alike (some p) = refl

abbrev rendered : ℕ → ℕ → Option (Text × (Text × Option Text)) → Option Text
rendered a b none = none
rendered a b (some (letters, (three, province))) = some (
    render letter_map (record {
      two_digits = a ∷ b ∷ [];
      letters = letters;
      three_digits = three;
      province = province;
    }))

result_alike :
    (a b : ℕ) (o : Option (Text × (Text × Option Text))) → agent_result a b o ≡ rendered a b o
unfolding agent_result render
result_alike a b none = refl
result_alike a b (some (letters, (three, province))) =
    let joined : agent_join agent_letters letters ≡ letter_codes letter_map letters =
      ap (λ m. agent_join m letters) table_alike ∙ join_alike letter_map letters in
    ap (λ w. some (a ∷ b ∷ w ++ (three ++ with_province province)))
      (ap or_unknown joined ∙ unknown_alike (letter_codes letter_map letters))
    ∙ ap (λ t. some (a ∷ b ∷ or_x (letter_codes letter_map letters) ++ (three ++ t)))
        (province_alike province)

-- The backend's plate of a text that is prepared.
abbrev plate_of : (ℕ → Bool) → Text → Option Text
plate_of d s = elim (match_plate d s) [ none ↦ none | some p ↦ some (render letter_map p) ]

-- On a text that is prepared, the expression and the result are those of the backend.
match_alike :
    (d : ℕ → Bool) (s : Text)
    → agent_match d s ≡ elim (match_plate d s) [ none ↦ none | some p ↦ some (render letter_map p) ]
unfolding agent_match match_plate
match_alike d [] = refl
match_alike d (a ∷ []) = refl
match_alike d (a ∷ b ∷ s) =
    ap (λ o. if d a && d b then agent_result a b o else none) (groups_alike d s)
    ∙ by_test (d a && d b) (match_letters d s)
  where
    found : Option (Text × (Text × Option Text)) → Option Parts
    found o = elim o [
      | none ↦ none
      | some (letters, (three, province)) ↦ some (record {
        two_digits = a ∷ b ∷ [];
        letters = letters;
        three_digits = three;
        province = province;
      })
    ]

    shown : Option Parts → Option Text
    shown o = elim o [ none ↦ none | some p ↦ some (render letter_map p) ]

    by_test :
        (t : Bool) (o : Option (Text × (Text × Option Text)))
        → (if t then agent_result a b o else none) ≡ shown (if t then found o else none)
    by_test false o = refl
    by_test true none = result_alike a b none
    by_test true (some (letters, (three, province))) =
        result_alike a b (some (letters, (three, province)))

non_blank :
    (t u : Text) (f : ℕ → ℕ) {a b : Option Text}
    → u ≡ translate f t
    → a ≡ b
    → elim t [ [] ↦ none | _ ∷ _ ↦ a ] ≡ elim u [ [] ↦ none | _ ∷ _ ↦ b ]
unfolding translate
non_blank [] [] f e h = refl
non_blank [] (c ∷ s) f e h = cc
non_blank (c ∷ s) [] f e h = cc
non_blank (c ∷ s) (k ∷ u) f e h = h

prepared_alike :
    (py : Python) (raw : Text)
    → ((c : ℕ) → py.is_space (translate_letter c) ≡ py.is_space c)
    → prepare py raw ≡ agent_prepare py (translate translate_letter raw)
unfolding agent_prepare prepare
prepared_alike py raw keeps =
    ap
      (λ t.
        replace_from iran_persian ir 0
          (replace_from iran_latin ir 0 (remove (is_separator py) (upper_all py t))))
      (sym (digits_after (strip py raw))
        ∙ ap (translate agent_digit) (sym (strip-translate py translate_letter keeps raw)))

-- Under the mapping MANY_TO_ONE the backend reads in every text what the gate's program, with its own
-- table of letters and its own expression, reads in the text with the Arabic kaf and yeh made
-- Persian: this translation, which the gate leaves out, is their only difference. It is used that
-- translated letters are white space where they were before.
pub backend_reads_translated :
    (py : Python) (raw : Text)
    → get_letter_map py (codes "MANY_TO_ONE") ≡ letter_map
    → ((c : ℕ) → py.is_space (translate_letter c) ≡ py.is_space c)
    → normalize_plate py (codes "MANY_TO_ONE") (some raw) none
      ≡ agent_normalize py (translate translate_letter raw)
unfolding agent_normalize normalize_plate normalize_text
backend_reads_translated py raw many keeps =
    non_blank (strip py raw) (strip py (translate translate_letter raw)) translate_letter
      (strip-translate py translate_letter keeps raw)
      (ap (λ m. normalize_text py m raw) many
        ∙ (ap (plate_of py.is_decimal) (prepared_alike py raw keeps)
            ∙ sym (match_alike py.is_decimal (agent_prepare py (translate translate_letter raw)))))
