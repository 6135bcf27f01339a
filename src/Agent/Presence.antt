-- ===== src/Agent/Presence.antt =====
-- Which vehicles the gate believes to be inside.
use parking_system.Common.{
  ℕ, ◌≡◌, refl, Bool, true, false, Option, none, some, List, [], ◌∷◌, ◌++◌, arith, any, select,
  text_eq, text_eq_refl, or_else,
}
use parking_system.Python.{Python, Text}
use parking_system.Model.{Decision, Direction}
use parking_system.Agent.{
  LocalDb, Detection, Info, handle_plate_event, move, log_event, passes, is_locally_inside, without,
  agent_normalize,
}

any-snoc : (plate : Text) (ts : List Text) → any (λ t. text_eq t plate) (ts ++ plate ∷ []) ≡ true
unfolding any
any-snoc plate [] = ground (arith, text_eq_refl plate)
any-snoc plate (t ∷ ts) = ground (arith, any-snoc plate ts)

any-without :
    (plate : Text) (ts : List Text) → any (λ t. text_eq t plate) (without plate ts) ≡ false
unfolding any select
any-without plate [] = refl
any-without plate (t ∷ ts) = ground (arith, any-without plate ts)

abbrev pub is_entry : Direction → Bool
is_entry Direction.inward = true
is_entry Direction.outward = false

moved :
    (plate : Text) (d : Decision) (dir : Direction) (db : LocalDb)
    → passes d ≡ true
    → is_locally_inside plate (move plate d dir db) ≡ is_entry dir
unfolding move is_locally_inside
moved plate d Direction.inward db h = rw h (any-snoc plate (without plate db.open_entries))
moved plate d Direction.outward db h = rw h (any-without plate db.open_entries)

-- After an event that lets a vehicle pass, decided by the centre or by the gate, the gate takes its
-- plate to be inside if it was an entry, and outside if it was an exit.
pub passed_is_inside :
    (py : Python) (e : Detection) (info : Option Info) (now : ℕ) (db : LocalDb)
    → passes (handle_plate_event py e info now db).0.decision ≡ true
    → is_locally_inside
        (or_else (agent_normalize py e.plate_raw) e.plate_raw)
        (handle_plate_event py e info now db).1
      ≡ is_entry e.direction
unfolding handle_plate_event log_event
passed_is_inside py e (some info) now db h = moved _ info.decision e.direction _ h
passed_is_inside py e none now db h = moved _ _ e.direction _ h
