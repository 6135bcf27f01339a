-- ===== src/Plate/Remap.antt =====
-- backend/app/shared/plate.py: remap_normalized_plate, which rewrites the letters of a normalized
-- plate by another table.
pub mod Reading
pub mod Texts
pub mod RoundTrip
use parking_system.Common.{
  ℕ, Bool, true, false, ◌&&◌, Option, none, some, List, [], ◌∷◌, ◌++◌, ◌==◌, if◌then◌else◌, map,
  select, text_eq,
}
use parking_system.Python.{Text, is_upper}
use parking_system.Plate.{LetterMap, Parts, code_of, province_part}

-- `(IR(\d{2}))?$`, where `$` also matches before a last line break; the outer option is the match.
unfoldable pub parts_end : (ℕ → Bool) → Text → Option (Option Text)
parts_end d [] = some none
parts_end d (a ∷ []) = if a == 10 then some none else none
parts_end d (a ∷ b ∷ e ∷ f ∷ []) =
    if (a == b'I') && (b == b'R') && (d e && d f) then some (some (e ∷ f ∷ [])) else none
parts_end d (a ∷ b ∷ e ∷ f ∷ g ∷ []) =
    if (a == b'I') && (b == b'R') && (d e && d f) && (g == 10)
    then some (some (e ∷ f ∷ []))
    else none
parts_end d _ = none

-- A group in front of those that follow, where these match.
abbrev pub with_group : {A : Type 0} → Text → Option A → Option (Text × A)
with_group group none = none
with_group group (some rest) = some (group, rest)

-- `(\d{3})` and what follows.
unfoldable pub parts_number : (ℕ → Bool) → Text → Option (Text × Option Text)
unfolding parts_end
parts_number d (a ∷ b ∷ c ∷ s) =
    if d a && d b && d c then with_group (a ∷ b ∷ c ∷ []) (parts_end d s) else none
parts_number d _ = none

-- `([A-Z]{1,2})` and what follows: two letters before one.
unfoldable pub parts_letters : (ℕ → Bool) → Text → Option (Text × (Text × Option Text))
unfolding parts_number is_upper
parts_letters d (l ∷ k ∷ s) =
    if is_upper l
    then elim (if is_upper k then parts_number d s else none) [
      | some t ↦ with_group (l ∷ k ∷ []) (some t)
      | none ↦ with_group (l ∷ []) (parts_number d (k ∷ s))
    ]
    else none
parts_letters d _ = none

abbrev pub of_groups : Option (Text × (Text × (Text × Option Text))) → Option Parts
of_groups none = none
of_groups (some (two, (letters, (three, province)))) =
    some (record { two_digits = two; letters = letters; three_digits = three; province = province })

-- NORMALIZED_PARTS_REGEX
unfoldable pub match_parts : (ℕ → Bool) → Text → Option Parts
unfolding parts_letters
match_parts d (a ∷ b ∷ s) =
    if d a && d b then of_groups (with_group (a ∷ b ∷ []) (parts_letters d s)) else none
match_parts d _ = none

-- `reverse_from.get(letters, [])`
unfoldable pub candidates : LetterMap → Text → List ℕ
candidates m letters = map (λ e. e.0) (select (λ e. text_eq letters e.1) m)

-- The plate of the groups, with other letters.
abbrev pub assembled : Parts → Text → Text
assembled p code = p.two_digits ++ (code ++ (p.three_digits ++ province_part p.province))

abbrev pub recoded : Parts → Option Text → Option Text
recoded p none = none
recoded p (some []) = none
recoded p (some (c ∷ s)) = some (assembled p (c ∷ s))

-- The letter that the code stands for, where there is just one.
abbrev pub only : List ℕ → Option ℕ
only (c ∷ []) = some c
only _ = none

unfoldable pub remap_parts : LetterMap → LetterMap → Parts → Option Text
unfolding candidates
remap_parts from_map to_map p = elim (only (candidates from_map p.letters)) [
  | none ↦ none
  | some letter ↦ recoded p (code_of to_map letter)
]

unfoldable pub remap_normalized_plate : (ℕ → Bool) → LetterMap → LetterMap → Text → Option Text
unfolding match_parts remap_parts
remap_normalized_plate d from_map to_map normalized = elim (match_parts d normalized) [
  | none ↦ none
  | some p ↦ remap_parts from_map to_map p
]
