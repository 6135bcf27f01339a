-- ===== src/Plate/Letters.antt =====
-- The tables of backend/app/shared/plate.py: Persian letters, by code point, to Latin codes.
use parking_system.Common.{ℕ, List, [], ◌∷◌}
use parking_system.Python.{Text}

abbrev pub LetterMap : Type 0
LetterMap = List (ℕ × Text)

unfoldable pub letter_map : LetterMap
letter_map =
    (0x627, b'A' ∷ [])
    ∷ (0x628, b'B' ∷ [])
    ∷ (0x67e, b'P' ∷ [])
    ∷ (0x62a, b'T' ∷ [])
    ∷ (0x62b, b'S' ∷ [])
    ∷ (0x62c, b'J' ∷ [])
    ∷ (0x686, b'C' ∷ [])
    ∷ (0x62d, b'H' ∷ [])
    ∷ (0x62e, b'X' ∷ [])
    ∷ (0x62f, b'D' ∷ [])
    ∷ (0x630, b'Z' ∷ [])
    ∷ (0x631, b'R' ∷ [])
    ∷ (0x632, b'Z' ∷ [])
    ∷ (0x698, b'Z' ∷ [])
    ∷ (0x633, b'S' ∷ [])
    ∷ (0x634, b'S' ∷ [])
    ∷ (0x635, b'S' ∷ [])
    ∷ (0x636, b'Z' ∷ [])
    ∷ (0x637, b'T' ∷ [])
    ∷ (0x638, b'Z' ∷ [])
    ∷ (0x639, b'A' ∷ [])
    ∷ (0x63a, b'G' ∷ [])
    ∷ (0x641, b'F' ∷ [])
    ∷ (0x642, b'G' ∷ [])
    ∷ (0x6a9, b'K' ∷ [])
    ∷ (0x6af, b'G' ∷ [])
    ∷ (0x644, b'L' ∷ [])
    ∷ (0x645, b'M' ∷ [])
    ∷ (0x646, b'N' ∷ [])
    ∷ (0x648, b'V' ∷ [])
    ∷ (0x647, b'H' ∷ [])
    ∷ (0x6cc, b'Y' ∷ [])
    ∷ []

unfoldable pub unique_letter_map : LetterMap
unique_letter_map =
    (0x627, b'A' ∷ [])
    ∷ (0x628, b'B' ∷ [])
    ∷ (0x67e, b'P' ∷ [])
    ∷ (0x62a, b'T' ∷ [])
    ∷ (0x62b, b'S' ∷ b'S' ∷ [])
    ∷ (0x62c, b'J' ∷ [])
    ∷ (0x686, b'C' ∷ b'C' ∷ [])
    ∷ (0x62d, b'H' ∷ [])
    ∷ (0x62e, b'K' ∷ b'H' ∷ [])
    ∷ (0x62f, b'D' ∷ [])
    ∷ (0x630, b'Z' ∷ b'D' ∷ [])
    ∷ (0x631, b'R' ∷ [])
    ∷ (0x632, b'Z' ∷ [])
    ∷ (0x698, b'Z' ∷ b'J' ∷ [])
    ∷ (0x633, b'S' ∷ [])
    ∷ (0x634, b'S' ∷ b'H' ∷ [])
    ∷ (0x635, b'S' ∷ b'C' ∷ [])
    ∷ (0x636, b'Z' ∷ b'B' ∷ [])
    ∷ (0x637, b'T' ∷ b'A' ∷ [])
    ∷ (0x638, b'Z' ∷ b'Z' ∷ [])
    ∷ (0x639, b'E' ∷ [])
    ∷ (0x63a, b'G' ∷ b'H' ∷ [])
    ∷ (0x641, b'F' ∷ [])
    ∷ (0x642, b'G' ∷ [])
    ∷ (0x6a9, b'K' ∷ [])
    ∷ (0x6af, b'G' ∷ b'G' ∷ [])
    ∷ (0x644, b'L' ∷ [])
    ∷ (0x645, b'M' ∷ [])
    ∷ (0x646, b'N' ∷ [])
    ∷ (0x648, b'V' ∷ [])
    ∷ (0x647, b'H' ∷ b'H' ∷ [])
    ∷ (0x6cc, b'Y' ∷ [])
    ∷ []
