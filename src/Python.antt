-- ===== src/Python.antt =====
-- What the program uses of Python's own text functions, which are tables of the interpreter
-- (str.isspace and re `\s`, re `\d`, str.isdigit, str.upper, int on a text): a record with their documented
-- behaviour on ASCII. Texts are lists of code points.
use Prim.Native.Char.{code}
use Prim.Native.String.{String}
use parking_system.Common.{
  ℕ, ◌≡◌, ◌-◌, ◌<◌, ◌&&◌, ◌||◌, Bool, List, [], ◌∷◌, ◌++◌, reverse, Option, leb, if◌then◌else◌,
}
use parking_system.Common.Int.{ℤ}

abbrev pub Text : Type 0
Text = List ℕ

unfoldable pub is_digit : ℕ → Bool
is_digit c = leb 48 c && leb c 57

unfoldable pub is_upper : ℕ → Bool
is_upper c = leb 65 c && leb c 90

unfoldable pub is_lower : ℕ → Bool
is_lower c = leb 97 c && leb c 122

-- The ASCII characters that `str.isspace` and `\s` accept.
unfoldable pub is_blank : ℕ → Bool
is_blank c = leb 9 c && leb c 13 || leb 28 c && leb c 32

pub record Python : Type 0 where
  pub is_space : ℕ → Bool
  pub is_decimal : ℕ → Bool
  pub is_digit_char : ℕ → Bool
  pub upper : ℕ → List ℕ
  pub lower : Text → Text
  pub parse_int : Text → Option ℤ
  pub space_ascii : (c : ℕ) → c < 128 → is_space c ≡ is_blank c
  pub decimal_ascii : (c : ℕ) → c < 128 → is_decimal c ≡ is_digit c
  pub digit_ascii : (c : ℕ) → c < 128 → is_digit_char c ≡ is_digit c
  pub upper_ascii : (c : ℕ) → c < 128 → upper c ≡ (if is_lower c then c - 32 else c) ∷ []

-- The code points of a literal.
abbrev pub codes : String → Text
codes String.[] = []
codes (String.◌∷◌ c s) = code c ∷ codes s

-- `str.strip`
unfoldable pub lstrip : Python → Text → Text
lstrip py [] = []
lstrip py (c ∷ s) = let rest = lstrip py s in if py.is_space c then rest else c ∷ s

unfoldable pub strip : Python → Text → Text
unfolding lstrip
strip py s = reverse (lstrip py (reverse (lstrip py s)))

-- `str.upper`
unfoldable pub upper_all : Python → Text → Text
upper_all py [] = []
upper_all py (c ∷ s) = py.upper c ++ upper_all py s
