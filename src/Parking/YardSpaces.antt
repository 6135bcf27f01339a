-- ===== src/Parking/YardSpaces.antt =====
-- backend/app/modules/parking/router.py: create_yard_spaces and delete_yard_space.
use parking_system.Common.{
  ℕ, zero, suc, ◌+◌, ◌/◌, ◌%◌, Bool, true, false, not, ◌||◌, Option, none, some, List, [], ◌∷◌,
  ◌++◌, ltb, ◌==◌, first, any, select, is_some, if◌then◌else◌,
}
use parking_system.Common.Int.{ℤ, pos, negsuc}
use parking_system.Python.{Python, Text, codes, strip}
use parking_system.Model.{ParkingSpace, SpaceStatus, ParkingType}
use parking_system.Store.{Db}
use parking_system.Parking.{
  Ended, done, not_found, conflict, integrity_error, is_space, has_space_code, active_for,
}

-- What the request holds as `codes`.
pub data Codes : Type 0 where
  no_codes no_list : Codes
  listed : List Text → Codes

pub record YardRequest : Type 0 where
  pub codes : Codes
  pub count : Option ℤ
  pub prefix : Option Text

-- `x or y` of texts.
abbrev pub or_text : Text → Text → Text
or_text [] t = t
or_text (c ∷ s) t = c ∷ s

unfoldable pub prefix_of : Python → Option Text → Text
prefix_of py none = or_text (strip py (codes "Y")) (codes "Y")
prefix_of py (some s) = or_text (strip py (or_text s (codes "Y"))) (codes "Y")

-- `str(i).zfill(4)` of a number below 10000.
unfoldable pub zfill_4 : ℕ → Text
zfill_4 i = (48 + i / 1000) ∷ (48 + i / 100 % 10) ∷ (48 + i / 10 % 10) ∷ (48 + i % 10) ∷ []

unfoldable pub numbered : Text → ℕ → ℕ → List Text
unfolding zfill_4
numbered prefix i zero = []
numbered prefix i (suc n) = (prefix ++ 45 ∷ zfill_4 i) ∷ numbered prefix (i + 1) n

-- The codes by their number, which is from 1 to 500.
unfoldable pub counted_codes : Python → Option Text → ℤ → Option (List Text)
unfolding numbered prefix_of
counted_codes py prefix (negsuc n) = none
counted_codes py prefix (pos n) =
    if ltb n 1 || ltb 500 n then none else some (numbered (prefix_of py prefix) 1 n)

-- Is a count given that is not 0?
abbrev pub given_count : Option ℤ → Option ℤ
given_count none = none
given_count (some (pos zero)) = none
given_count (some z) = some z

abbrev pub by_count : Python → YardRequest → Option (List Text)
by_count py body = elim (given_count body.count) [
  | none ↦ some []
  | some z ↦ counted_codes py body.prefix z
]

-- `codes_in`; none where the request is refused.
unfoldable pub codes_in : Python → YardRequest → Option (List Text)
unfolding counted_codes
codes_in py body = elim body.codes [
  | no_codes ↦ by_count py body
  | no_list ↦ none
  | listed [] ↦ by_count py body
  | listed (c ∷ cs) ↦ some (c ∷ cs)
]

abbrev pub yard_space : Text → ℕ → ParkingSpace
yard_space code id = record {
  id = id;
  code = code;
  floor = pos 0;
  zone = some (codes "YARD");
  parking_type = ParkingType.yard;
  map_x = none;
  map_y = none;
  status = SpaceStatus.free;
  is_active = true;
}

-- What the loop does with a code that is stripped.
pub data CodeKind : Type 0 where
  blank known fresh_code : CodeKind

abbrev pub kind_of : Text → List ParkingSpace → CodeKind
kind_of [] spaces = blank
kind_of (c ∷ s) spaces = if any (has_space_code (c ∷ s)) spaces then known else fresh_code

abbrev pub with_code : CodeKind → Text → ℕ → List ParkingSpace → List ParkingSpace
with_code fresh_code code id spaces = spaces ++ yard_space code id ∷ []
with_code _ code id spaces = spaces

abbrev pub noted_code : CodeKind → Text → List Text × List Text → List Text × List Text
noted_code blank code (created, skipped) = (created, skipped)
noted_code known code (created, skipped) = (created, code ∷ skipped)
noted_code fresh_code code (created, skipped) = (code ∷ created, skipped)

-- The loop: the codes that it created and skipped, and the spaces.
unfoldable pub add_codes :
    Python → ℕ → List Text → List ParkingSpace → (List Text × List Text) × List ParkingSpace
add_codes py id [] spaces = (([], []), spaces)
add_codes py id (raw ∷ raws) spaces =
    let code = strip py raw in
    let kind = kind_of code spaces in
    let (noted, end) = add_codes py (id + 1) raws (with_code kind code id spaces) in
    (noted_code kind code noted, end)

abbrev pub is_blank_code : Python → Text → Bool
is_blank_code py raw = elim (strip py raw) [ [] ↦ true | c ∷ s ↦ false ]

-- The rows draw their identifiers from `id` on.
unfoldable pub create_yard_spaces : Python → YardRequest → ℕ → Db → Ended (List Text × List Text)
unfolding codes_in add_codes
create_yard_spaces py body id db = elim (codes_in py body) [
  | none ↦ conflict
  | some raws ↦
      if any (λ raw. not (is_blank_code py raw)) raws
      then (let (noted, spaces) = add_codes py id raws db.spaces in
          done noted (record db { spaces = spaces }))
      else conflict
]

abbrev pub is_of_yard : ParkingSpace → Bool
is_of_yard s = elim s.parking_type [ ParkingType.yard ↦ true | ParkingType.other_type ↦ false ]

abbrev pub is_occupied_space : ParkingSpace → Bool
is_occupied_space s = elim s.status [ SpaceStatus.occupied ↦ true | _ ↦ false ]

-- An assignment, also a closed one, refers to its space by a foreign key.
unfoldable pub remove_space : ParkingSpace → Db → Ended ℕ
remove_space s db =
    if not (is_of_yard s)
    then conflict
    else if is_occupied_space s
    then conflict
    else if is_some (first (active_for s.id) db.assignments)
    then conflict
    else if any (λ a. a.parking_space_id == s.id) db.assignments
    then integrity_error
    else done s.id (record db { spaces = select (λ t. not (t.id == s.id)) db.spaces })

unfoldable pub delete_yard_space : ℕ → Db → Ended ℕ
unfolding remove_space
delete_yard_space id db = elim (first (is_space id) db.spaces) [
  | none ↦ not_found
  | some s ↦ remove_space s db
]
