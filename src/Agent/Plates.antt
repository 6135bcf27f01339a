-- ===== src/Agent/Plates.antt =====
-- gate-agent/agent/shared_plate.py: how the gate's program reads a plate.
use parking_system.Common.{
  ℕ, ◌-◌, ◌+◌, Bool, ◌&&◌, ◌||◌, Option, none, some, [], ◌∷◌, ◌++◌, leb, ◌==◌, if◌then◌else◌,
}
use parking_system.Python.{Python, Text, strip, upper_all, is_upper, is_lower}
use parking_system.Plate.{
  LetterMap, is_separator, translate, remove, replace_from, iran_persian, iran_latin, ir, code_of,
}

-- `_TRANS` on one character: the Persian and the Arabic digits.
unfoldable pub agent_digit : ℕ → ℕ
agent_digit c =
    if leb 0x660 c && leb c 0x669
    then c - 0x660 + 48
    else if leb 0x6f0 c && leb c 0x6f9
    then c - 0x6f0 + 48
    else c

-- `_LETTERS`
unfoldable pub agent_letters : LetterMap
agent_letters =
    (0x627, b'A' ∷ [])
    ∷ (0x628, b'B' ∷ [])
    ∷ (0x67e, b'P' ∷ [])
    ∷ (0x62a, b'T' ∷ [])
    ∷ (0x62b, b'S' ∷ [])
    ∷ (0x62c, b'J' ∷ [])
    ∷ (0x686, b'C' ∷ [])
    ∷ (0x62d, b'H' ∷ [])
    ∷ (0x62e, b'X' ∷ [])
    ∷ (0x62f, b'D' ∷ [])
    ∷ (0x630, b'Z' ∷ [])
    ∷ (0x631, b'R' ∷ [])
    ∷ (0x632, b'Z' ∷ [])
    ∷ (0x698, b'Z' ∷ [])
    ∷ (0x633, b'S' ∷ [])
    ∷ (0x634, b'S' ∷ [])
    ∷ (0x635, b'S' ∷ [])
    ∷ (0x636, b'Z' ∷ [])
    ∷ (0x637, b'T' ∷ [])
    ∷ (0x638, b'Z' ∷ [])
    ∷ (0x639, b'A' ∷ [])
    ∷ (0x63a, b'G' ∷ [])
    ∷ (0x641, b'F' ∷ [])
    ∷ (0x642, b'G' ∷ [])
    ∷ (0x6a9, b'K' ∷ [])
    ∷ (0x6af, b'G' ∷ [])
    ∷ (0x644, b'L' ∷ [])
    ∷ (0x645, b'M' ∷ [])
    ∷ (0x646, b'N' ∷ [])
    ∷ (0x648, b'V' ∷ [])
    ∷ (0x647, b'H' ∷ [])
    ∷ (0x6cc, b'Y' ∷ [])
    ∷ []

-- The text that `_REGEX` is matched against; the class of separators is that of the backend.
unfoldable pub agent_prepare : Python → Text → Text
unfolding agent_digit
agent_prepare py raw = replace_from iran_persian ir 0 (
    replace_from iran_latin ir 0
      (remove (is_separator py) (upper_all py (translate agent_digit (strip py raw)))))

-- `(\d{3})(?:IR)?(\d{2})?$` of `_REGEX` on the whole rest of the text, by its length.
unfoldable pub agent_end : (ℕ → Bool) → Text → Option (Text × Option Text)
agent_end d (a ∷ b ∷ c ∷ []) = if d a && (d b && d c) then some (a ∷ b ∷ c ∷ [], none) else none
agent_end d (a ∷ b ∷ c ∷ e ∷ f ∷ []) =
    if d a && (d b && d c)
    then (if (e == b'I') && (f == b'R')
        then some (a ∷ b ∷ c ∷ [], none)
        else if d e && d f
        then some (a ∷ b ∷ c ∷ [], some (e ∷ f ∷ []))
        else none)
    else none
agent_end d (a ∷ b ∷ c ∷ i ∷ r ∷ e ∷ f ∷ []) =
    if d a && (d b && d c)
    then (if (i == b'I') && (r == b'R') && (d e && d f)
        then some (a ∷ b ∷ c ∷ [], some (e ∷ f ∷ []))
        else none)
    else none
agent_end d _ = none

-- `(.+?)`: the letters, the fewest after which the rest matches.
abbrev pub one_more :
    ℕ → Option (Text × (Text × Option Text)) → Option (Text × (Text × Option Text))
one_more c none = none
one_more c (some (letters, end)) = some (c ∷ letters, end)

unfoldable pub agent_groups : (ℕ → Bool) → Text → Option (Text × (Text × Option Text))
unfolding agent_end
agent_groups d [] = none
agent_groups d (c ∷ s) =
    let later = agent_groups d s in
    elim (agent_end d s) [ some end ↦ some (c ∷ [], end) | none ↦ one_more c later ]

-- The join over the letters: `_LETTERS.get(ch, ch)` of those in the table and of Latin ones.
unfoldable pub agent_join : LetterMap → Text → Text
agent_join m [] = []
agent_join m (c ∷ s) =
    let rest = agent_join m s in
    elim (code_of m c) [
      | some code ↦ code ++ rest
      | none ↦ if is_upper c || is_lower c then c ∷ rest else rest
    ]

abbrev pub or_unknown : Text → Text
or_unknown [] = b'X' ∷ []
or_unknown (c ∷ s) = c ∷ s

abbrev pub with_province : Option Text → Text
with_province none = []
with_province (some p) = b'I' ∷ b'R' ∷ p

-- The result, from the groups of `_REGEX`.
unfoldable pub agent_result : ℕ → ℕ → Option (Text × (Text × Option Text)) → Option Text
unfolding agent_join
agent_result a b none = none
agent_result a b (some (letters, (three, province))) =
    some
      (a ∷ b ∷ or_unknown (agent_join agent_letters letters) ++ (three ++ with_province province))

-- `_REGEX` and the result.
unfoldable pub agent_match : (ℕ → Bool) → Text → Option Text
unfolding agent_groups agent_result
agent_match d (a ∷ b ∷ s) = if d a && d b then agent_result a b (agent_groups d s) else none
agent_match d _ = none

unfoldable pub agent_normalize : Python → Text → Option Text
unfolding agent_prepare agent_match
agent_normalize py raw = elim (strip py raw) [
  | [] ↦ none
  | _ ∷ _ ↦ agent_match py.is_decimal (agent_prepare py raw)
]
