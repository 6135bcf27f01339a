-- ===== src/Plate/Remap/RoundTrip.antt =====
-- backend/app/shared/plate.py: a plate that is rewritten by another table, and back.
use parking_system.Common.{
  ℕ, ◌≡◌, ◌<◌, refl, sym, ap, ◌∙◌, subst, Bool, true, false, not, ◌&&◌, Option, none, some,
  some_same, List, [], ◌∷◌, ◌==◌, arith, inl, inr, Bool-cases, select, any, all, text_eq,
  text_eq_refl, text_eq→eq, ==→eq,
}
use parking_system.Python.{Python, Text, is_upper, is_digit}
use parking_system.Plate.{LetterMap, Parts, code_of, letter_map, unique_letter_map}
use parking_system.Plate.Unique.{has_code, codes_differ, found_code, table_differs}
use parking_system.Plate.Remap.{
  match_parts, assembled, candidates, only, recoded, remap_parts, remap_normalized_plate,
}
use parking_system.Plate.Remap.Texts.{without_break, parts_text}
use parking_system.Plate.Remap.Reading.{is_code, AreApart, parts_found, parts_read}

abbrev has_letter : ℕ → LetterMap → Bool
has_letter c m = any (λ e. e.0 == c) m

-- No letter stands twice in the table: the keys of a dict.
unfoldable letters_differ : LetterMap → Bool
letters_differ [] = true
letters_differ ((letter, code) ∷ m) = not (has_letter letter m) && letters_differ m

found_letter : (m : LetterMap) (c : ℕ) {w : Text} → code_of m c ≡ some w → has_letter c m ≡ true
unfolding code_of any
found_letter [] c {w} h = cc
found_letter ((letter, code) ∷ m) c {w} h = ground (arith, found_letter m c {w = w})

cons_same : {A : Type 0} {a b : A} {xs ys : List A} → a ∷ xs ≡ b ∷ ys → a ≡ b
cons_same h = cc

-- What the reversed table has under a code, the table maps to it.
candidate_coded :
    (m : LetterMap) (c : ℕ) (w : Text) {rest : List ℕ}
    → letters_differ m ≡ true
    → candidates m w ≡ c ∷ rest
    → code_of m c ≡ some w
unfolding candidates select code_of letters_differ
candidate_coded [] c w {rest} differ h = cc
candidate_coded ((letter, code) ∷ m) c w {rest} differ h = elim (Bool-cases (text_eq w code)) [
  | inl hit ↦
      let same : letter ≡ c = cons_same (simp hit at h) in
      let equal = text_eq→eq w code hit in ground (arith, same, equal)
  | inr miss ↦
      let later : code_of m c ≡ some w = candidate_coded m c w (ground arith) (simp miss at h) in
      ground (arith, later, found_letter m c later)
]

no_candidates : (m : LetterMap) (w : Text) → has_code w m ≡ false → candidates m w ≡ []
unfolding candidates select any
no_candidates [] w h = refl
no_candidates ((letter, code) ∷ m) w h =
    let miss : text_eq w code ≡ false = ground arith in
    let rest : has_code w m ≡ false = ground arith in rw miss (no_candidates m w rest)

-- A code that stands in the rest of a table is not its first.
another :
    (code : Text) (m : LetterMap) (w : Text)
    → has_code code m ≡ false
    → has_code w m ≡ true
    → text_eq w code ≡ false
another code m w lacks has = elim (Bool-cases (text_eq w code)) [
  | inr miss ↦ miss
  | inl hit ↦ cc (subst (λ x. has_code x m ≡ true) (text_eq→eq w code hit) has, lacks)
]

code_found :
    (m : LetterMap) (c : ℕ) (w : Text)
    → codes_differ m ≡ true
    → code_of m c ≡ some w
    → candidates m w ≡ c ∷ []
unfolding candidates select code_of codes_differ
code_found [] c w differ h = cc
code_found ((letter, code) ∷ m) c w differ h = elim (Bool-cases (letter == c)) [
  | inl hit ↦
      let same : code ≡ w = some_same (simp hit at h) in
      let none_left = no_candidates m w (subst (λ x. has_code x m ≡ false) same (ground arith)) in
      let equal : text_eq w code ≡ true =
        subst (λ x. text_eq w x ≡ true) (sym same) (text_eq_refl w) in
      rw (equal, none_left, ==→eq letter c hit) refl
  | inr miss ↦
      let later : code_of m c ≡ some w = simp miss at h in
      let apart : text_eq w code ≡ false = another code m w (ground arith) (found_code m c later) in
      rw apart (code_found m c w (ground arith) later)
]

code_passes :
    (p : Text → Bool) (m : LetterMap) (c : ℕ) {w : Text}
    → all (λ e. p e.1) m ≡ true
    → code_of m c ≡ some w
    → p w ≡ true
unfolding all code_of
code_passes p [] c {w} h k = cc
code_passes p ((letter, code) ∷ m) c {w} h k = elim (Bool-cases (letter == c)) [
  | inl hit ↦ subst (λ x. p x ≡ true) (some_same (simp hit at k)) (ground arith)
  | inr miss ↦ code_passes p m c {w = w} (ground arith) (simp miss at k)
]

recoded_code : (p : Parts) (t : Text) → is_code t ≡ true → recoded p (some t) ≡ some (assembled p t)
unfolding is_code
recoded_code p [] h = cc
recoded_code p (c ∷ s) h = refl

remap_read :
    (d : ℕ → Bool) (n m : LetterMap) (p : Parts) (code : Text) (letter : ℕ)
    → match_parts d (assembled p code) ≡ some (record p { letters = code })
    → candidates n code ≡ letter ∷ []
    → code_of m letter ≡ some p.letters
    → is_code p.letters ≡ true
    → remap_normalized_plate d n m (assembled p code) ≡ some (assembled p p.letters)
unfolding remap_normalized_plate remap_parts
remap_read d n m p code letter read one coded formed =
    rw (remap_normalized_plate, read, remap_parts, one, coded) (recoded_code p p.letters formed)

-- A plate that the tables convert comes back as its groups, put together again.
remap_back :
    (d : ℕ → Bool) (m n : LetterMap) (s : Text) {q : Text}
    → AreApart d
    → letters_differ m ≡ true
    → codes_differ n ≡ true
    → all (λ e. is_code e.1) n ≡ true
    → remap_normalized_plate d m n s ≡ some q
    → (p : Parts) × ((match_parts d s ≡ some p)
        × (remap_normalized_plate d n m q ≡ some (assembled p p.letters)))
unfolding remap_normalized_plate remap_parts
remap_back d m n s {q} apart keys codes formed h = by_parts (match_parts d s) refl h
  where
    Back : Type 0
    Back =
        (p : Parts) × ((match_parts d s ≡ some p)
          × (remap_normalized_plate d n m q ≡ some (assembled p p.letters)))

    by_code :
        (p : Parts) (letter : ℕ) (o : Option Text)
        → match_parts d s ≡ some p
        → candidates m p.letters ≡ letter ∷ []
        → code_of n letter ≡ o
        → recoded p o ≡ some q
        → Back
    by_code p letter none e f g k = cc
    by_code p letter (some []) e f g k = cc
    by_code p letter (some (c ∷ w)) e f g k =
        let shape = parts_found d s e in
        let formed_code = code_passes is_code n letter formed g in
        let back =
          remap_read d n m p (c ∷ w) letter (parts_read d p (c ∷ w) apart shape formed_code)
            (code_found n letter (c ∷ w) codes g) (candidate_coded m letter p.letters keys f)
            shape.letters in
        (
          p,
          (
            e,
            subst (λ x. remap_normalized_plate d n m x ≡ some (assembled p p.letters)) (some_same k)
                back,
          ),
        )

    by_letter :
        (p : Parts) (cs : List ℕ)
        → match_parts d s ≡ some p
        → candidates m p.letters ≡ cs
        → elim (only cs) [ none ↦ none | some letter ↦ recoded p (code_of n letter) ] ≡ some q
        → Back
    by_letter p [] e f k = cc
    by_letter p (a ∷ b ∷ cs) e f k = cc
    by_letter p (a ∷ []) e f k = by_code p a (code_of n a) e f refl k

    by_parts :
        (o : Option Parts)
        → match_parts d s ≡ o
        → elim o [ none ↦ none | some p ↦ remap_parts m n p ] ≡ some q
        → Back
    by_parts none e k = cc
    by_parts (some p) e k = by_letter p (candidates m p.letters) e refl k

digit_apart : (c : ℕ) → is_upper c ≡ true → is_digit c ≡ false
unfolding is_upper is_digit
digit_apart c h = ground arith

upper_ascii : (c : ℕ) → is_upper c ≡ true → c < 128
unfolding is_upper
upper_ascii c h = ground arith

decimals_apart : (py : Python) → AreApart py.is_decimal
decimals_apart py c h = elim (Bool-cases (is_upper c)) [
  | inr miss ↦ miss
  | inl upper ↦ cc (py.decimal_ascii c (upper_ascii c upper), digit_apart c upper, h)
]

table_letters : letters_differ letter_map ≡ true
unfolding letters_differ letter_map any
table_letters = refl

table_codes : all (λ e. is_code e.1) unique_letter_map ≡ true
unfolding all is_code unique_letter_map is_upper
table_codes = refl

no_break : (py : Python) → py.is_decimal 10 ≡ false
unfolding is_digit
no_break py = py.decimal_ascii 10 (omega arith) ∙ refl

-- A plate that is migrated from the letters MANY_TO_ONE to the letters UNIQUE comes back by the
-- opposite migration: all of it, but for a line break at its end.
pub migration_comes_back :
    (py : Python) (s : Text) {q : Text}
    → remap_normalized_plate py.is_decimal letter_map unique_letter_map s ≡ some q
    → remap_normalized_plate py.is_decimal unique_letter_map letter_map q ≡ some (without_break s)
migration_comes_back py s h =
    let (p, (found, back)) =
      remap_back py.is_decimal letter_map unique_letter_map s (decimals_apart py) table_letters
        table_differs table_codes h in
    back ∙ ap some (parts_text py.is_decimal s (no_break py) found)
