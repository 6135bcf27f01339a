-- ===== src/Plate.antt =====
-- backend/app/shared/plate.py: Iranian plates, normalized to 12B345IR67. The regular expressions
-- are written out as functions on the text; `.` and `$` meet no line break, since white space is
-- removed before.
mod Letters
pub mod Unique
pub mod Remap
unfoldable pub use Letters.{letter_map, unique_letter_map}
pub use Letters.{LetterMap}
use parking_system.Common.{
  ℕ, zero, suc, ◌+◌, ◌-◌, Bool, true, false, not, ◌&&◌, ◌||◌, Option, none, some, List, [], ◌∷◌,
  ◌++◌, leb, ltb, ◌==◌, if◌then◌else◌, any, text_eq, length, or_else,
}
use parking_system.Python.{Python, Text, codes, is_digit, is_upper, is_lower, strip, upper_all}

-- `get_letter_map`
unfoldable pub get_letter_map : Python → Text → LetterMap
get_letter_map py mode =
    if text_eq (upper_all py mode) (codes "UNIQUE") then unique_letter_map else letter_map

-- DIGIT_TRANS and ARABIC_LETTER_TRANS on one character.
unfoldable pub translate_digit : ℕ → ℕ
translate_digit c =
    if leb 0x6f0 c && leb c 0x6f9
    then c - 0x6f0 + 48
    else if leb 0x660 c && leb c 0x669
    then c - 0x660 + 48
    else c

unfoldable pub translate_letter : ℕ → ℕ
translate_letter c = if c == 0x643 then 0x6a9 else if (c == 0x64a) || (c == 0x649) then 0x6cc else c

-- `[\s\-_/\\.,()]`
unfoldable pub is_separator : Python → ℕ → Bool
is_separator py c =
    py.is_space c
    || ((c == b'-')
        || ((c == b'_')
            || ((c == b'/')
                || ((c == 92) || ((c == b'.') || ((c == b',') || ((c == b'(') || (c == b')'))))))))

unfoldable pub translate : (ℕ → ℕ) → Text → Text
translate f [] = []
translate f (c ∷ s) = f c ∷ translate f s

unfoldable pub remove : (ℕ → Bool) → Text → Text
remove p [] = []
remove p (c ∷ s) = let rest = remove p s in if p c then rest else c ∷ rest

unfoldable pub starts_with : Text → Text → Bool
starts_with [] s = true
starts_with (p ∷ ps) [] = false
starts_with (p ∷ ps) (c ∷ s) = (p == c) && starts_with ps s

-- `str.replace`, from left to right: `skip` characters of the last occurrence are still to drop.
unfoldable pub replace_from : Text → Text → ℕ → Text → Text
replace_from old new skip [] = []
replace_from old new (suc skip) (c ∷ s) = replace_from old new skip s
replace_from old new zero (c ∷ s) =
    let hit = starts_with old (c ∷ s) in
    let rest = replace_from old new (if hit then length old - 1 else 0) s in
    if hit then new ++ rest else c ∷ rest

abbrev pub iran_latin : Text
iran_latin = b'I' ∷ b'R' ∷ b'A' ∷ b'N' ∷ []

abbrev pub iran_persian : Text
iran_persian = 0x627 ∷ 0x6cc ∷ 0x631 ∷ 0x627 ∷ 0x646 ∷ []

abbrev pub ir : Text
ir = b'I' ∷ b'R' ∷ []

-- The text that PLATE_REGEX is matched against.
unfoldable pub prepare : Python → Text → Text
prepare py raw = replace_from iran_persian ir 0 (
    replace_from iran_latin ir 0 (
      remove (is_separator py)
        (upper_all py (translate translate_letter (translate translate_digit (strip py raw))))))

-- The groups of PLATE_REGEX.
pub record Parts : Type 0 where
  pub two_digits : Text
  pub letters : Text
  pub three_digits : Text
  pub province : Option Text

-- `(?:IR)?(\d{2})?$` on the rest of the text; the outer option is the match.
unfoldable pub match_province : (ℕ → Bool) → Text → Option (Option Text)
match_province d [] = some none
match_province d (a ∷ []) = none
match_province d (a ∷ b ∷ []) =
    if (a == b'I') && (b == b'R')
    then some none
    else if d a && d b
    then some (some (a ∷ b ∷ []))
    else none
match_province d (a ∷ b ∷ e ∷ []) = none
match_province d (a ∷ b ∷ e ∷ f ∷ []) =
    if (a == b'I') && (b == b'R') && (d e && d f) then some (some (e ∷ f ∷ [])) else none
match_province d (a ∷ b ∷ e ∷ f ∷ g ∷ s) = none

-- `(\d{3})(?:IR)?(\d{2})?$`
unfoldable pub match_tail : (ℕ → Bool) → Text → Option (Text × Option Text)
unfolding match_province
match_tail d (a ∷ b ∷ c ∷ s) =
    if d a && (d b && d c)
    then elim (match_province d s) [ none ↦ none | some p ↦ some (a ∷ b ∷ c ∷ [], p) ]
    else none
match_tail d _ = none

-- `(.+?)` and what follows: the fewest letters after which the rest matches.
unfoldable pub match_letters : (ℕ → Bool) → Text → Option (Text × (Text × Option Text))
match_letters d [] = none
match_letters d (c ∷ s) =
    let later = match_letters d s in
    elim (match_tail d s) [
      | some t ↦ some (c ∷ [], t)
      | none ↦ elim later [ none ↦ none | some (letters, t) ↦ some (c ∷ letters, t) ]
    ]

-- PLATE_REGEX
unfoldable pub match_plate : (ℕ → Bool) → Text → Option Parts
match_plate d (a ∷ b ∷ s) =
    if d a && d b
    then elim (match_letters d s) [
      | none ↦ none
      | some (letters, (three, province)) ↦ some (record {
        two_digits = a ∷ b ∷ [];
        letters = letters;
        three_digits = three;
        province = province;
      })
    ]
    else none
match_plate d _ = none

unfoldable pub code_of : LetterMap → ℕ → Option Text
code_of [] c = none
code_of ((letter, code) ∷ m) c = if letter == c then some code else code_of m c

-- What one letter adds to `normalized_letters`.
unfoldable pub letter_code : LetterMap → ℕ → Text
unfolding is_upper is_lower
letter_code m c = elim (code_of m c) [
  | some code ↦ code
  | none ↦ if is_upper c || is_lower c then c ∷ [] else []
]

unfoldable pub letter_codes : LetterMap → Text → Text
letter_codes m [] = []
letter_codes m (c ∷ s) = letter_code m c ++ letter_codes m s

abbrev pub or_x : Text → Text
or_x [] = b'X' ∷ []
or_x (c ∷ s) = c ∷ s

abbrev pub province_part : Option Text → Text
province_part none = []
province_part (some p) = ir ++ p

-- The result of `normalize_plate`, from the groups.
unfoldable pub render : LetterMap → Parts → Text
render m p =
    p.two_digits
    ++ (or_x (letter_codes m p.letters) ++ (p.three_digits ++ province_part p.province))

-- `normalize_plate` of a text; `setting` is PLATE_LETTER_MAPPING, the default of `letter_mapping`.
unfoldable pub normalize_text : Python → LetterMap → Text → Option Text
normalize_text py m raw = elim (match_plate py.is_decimal (prepare py raw)) [
  | none ↦ none
  | some p ↦ some (render m p)
]

unfoldable pub normalize_plate : Python → Text → Option Text → Option Text → Option Text
normalize_plate py setting none letter_mapping = none
normalize_plate py setting (some raw) letter_mapping = elim (strip py raw) [
  | [] ↦ none
  | _ ∷ _ ↦ normalize_text py (get_letter_map py (or_else letter_mapping setting)) raw
]

-- VALID_PLATE_REGEX: `^\d{2}[A-Z]{1,2}\d{3}(IR\d{2})?$`, where `$` also matches before a last line
-- break.
unfoldable pub valid_end : (ℕ → Bool) → Text → Bool
valid_end d [] = true
valid_end d (a ∷ []) = a == 10
valid_end d (a ∷ b ∷ e ∷ f ∷ []) = (a == b'I') && (b == b'R') && (d e && d f)
valid_end d (a ∷ b ∷ e ∷ f ∷ g ∷ []) = (a == b'I') && (b == b'R') && (d e && d f) && (g == 10)
valid_end d _ = false

unfoldable pub valid_number : (ℕ → Bool) → Text → Bool
unfolding valid_end
valid_number d (a ∷ b ∷ c ∷ s) = d a && (d b && d c) && valid_end d s
valid_number d _ = false

unfoldable pub valid_letters : (ℕ → Bool) → Text → Bool
unfolding valid_number is_upper
valid_letters d (l ∷ k ∷ s) =
    is_upper l && (valid_number d (k ∷ s) || is_upper k && valid_number d s)
valid_letters d _ = false

unfoldable pub is_valid_iranian_plate : Python → Option Text → Bool
unfolding valid_letters
is_valid_iranian_plate py (some (a ∷ b ∷ s)) =
    py.is_decimal a && py.is_decimal b && valid_letters py.is_decimal s
is_valid_iranian_plate py _ = false
