-- ===== src/Plate/Unique.antt =====
-- The table UNIQUE_LETTER_MAP can be read backwards.
use parking_system.Common.{
  ℕ, ◌≡◌, refl, Bool, true, not, ◌&&◌, some, some_same, [], ◌∷◌, arith, inl, inr, Bool-cases, any,
  text_eq, text_eq_refl, ◌==◌,
}
use parking_system.Python.{Text}
use parking_system.Plate.{LetterMap, code_of, unique_letter_map}

abbrev pub has_code : Text → LetterMap → Bool
has_code w m = any (λ e. text_eq w e.1) m

-- No code stands twice in the table.
unfoldable pub codes_differ : LetterMap → Bool
codes_differ [] = true
codes_differ ((letter, code) ∷ m) = not (has_code code m) && codes_differ m

pub found_code : (m : LetterMap) (c : ℕ) {w : Text} → code_of m c ≡ some w → has_code w m ≡ true
unfolding code_of any
found_code [] c {w} h = cc
found_code ((letter, code) ∷ m) c {w} h = elim (Bool-cases (letter == c)) [
  | inl hit ↦ ground (arith, text_eq_refl w, some_same (simp hit at h))
  | inr miss ↦ ground (arith, found_code m c (simp miss at h))
]

code_of_injective :
    (m : LetterMap) (c d : ℕ) {w : Text}
    → codes_differ m ≡ true
    → code_of m c ≡ some w
    → code_of m d ≡ some w
    → c ≡ d
unfolding code_of codes_differ
code_of_injective [] c d {w} differ hc hd = cc
code_of_injective ((letter, code) ∷ m) c d {w} differ hc hd =
    ground (arith, found_code m c {w = w}, found_code m d {w = w}, code_of_injective m c d {w = w})

pub table_differs : codes_differ unique_letter_map ≡ true
unfolding codes_differ unique_letter_map any text_eq
table_differs = refl

-- Under the mapping UNIQUE no two letters have the same code.
pub unique_code_injective :
    (c d : ℕ) {w : Text}
    → code_of unique_letter_map c ≡ some w
    → code_of unique_letter_map d ≡ some w
    → c ≡ d
unique_code_injective c d hc hd = code_of_injective unique_letter_map c d table_differs hc hd
