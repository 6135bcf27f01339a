-- ===== src/Tests/Places.antt =====
-- Witnesses on spaces and their assignments.
use parking_system.Common.{◌≡◌, refl, none, some, [], ◌∷◌, arith, count, first, List, any, text_eq}
use parking_system.Common.Int.{pos}
use parking_system.Python.{Text, codes, is_blank, strip}
use parking_system.Store.{Db}
use parking_system.Gate.Commit.{find_assigned_space}
use parking_system.Parking.{
  done, NewSpace, NewAssignment, new_space, new_assignment, create_space, create_assignment,
}
use parking_system.Parking.YardSpaces.{
  YardRequest, listed, yard_space, create_yard_spaces, add_codes, codes_in,
}
use parking_system.Parking.Tidy.{IsTidy}
use parking_system.Parking.Requests.{
  Served, here, served, create, Request, Served-IsTidy, space_is_exclusive,
}
use parking_system.Parking.Bulk.{codes_of, bulk_is_idempotent}
use parking_system.Tests.Fixtures.{ascii, lot, vehicle}

abbrev corner : NewSpace
corner = record { code = codes "P1"; floor = pos 0; zone = none; parking_type = codes "PRIVATE" }

abbrev lot_with_space : Db
lot_with_space = record lot { spaces = new_space corner 40 ∷ [] }

abbrev for_vehicle : NewAssignment
for_vehicle = record { parking_space_id = 40; unit_id = some 3; vehicle_id = some 2 }

abbrev lot_assigned : Db
lot_assigned = record lot_with_space { assignments = new_assignment for_vehicle 41 ∷ [] }

lot-IsTidy : IsTidy lot
unfolding count
lot-IsTidy = record {
  codes = λ c. omega arith;
  one_active = λ id. omega arith;
  placed = λ id. omega arith;
}

corner_is_created : create_space corner 40 lot ≡ done (new_space corner 40) lot_with_space
unfolding create_space first
corner_is_created = refl

corner_is_assigned : create_assignment (3 ∷ []) for_vehicle 41 lot_with_space ≡ done 41 lot_assigned
unfolding create_assignment first any
corner_is_assigned = refl

lot_assigned-Served : Served lot lot_assigned
lot_assigned-Served =
    served (served here (create corner 40 (new_space corner 40) corner_is_created))
      (Request.assign (3 ∷ []) for_vehicle 41 41 corner_is_assigned)

Served-IsTidy_example : IsTidy lot_assigned
Served-IsTidy_example = Served-IsTidy lot lot-IsTidy lot_assigned-Served

lot_assigned-IsTidy : IsTidy lot_assigned
lot_assigned-IsTidy = Served-IsTidy lot lot-IsTidy lot_assigned-Served

corner_is_found : find_assigned_space lot_assigned (some vehicle) ≡ some (new_space corner 40)
unfolding find_assigned_space first any
corner_is_found = refl

space_is_exclusive_example : vehicle.id ≡ vehicle.id
space_is_exclusive_example =
    space_is_exclusive lot_assigned vehicle vehicle lot_assigned-IsTidy corner_is_found
      corner_is_found refl

abbrev two_codes : YardRequest
two_codes = record {
  codes = listed (codes " Y-1" ∷ codes "" ∷ codes "Y-1 " ∷ []);
  count = none;
  prefix = none;
}

abbrev lot_with_yard : Db
lot_with_yard = record lot { spaces = yard_space (codes "Y-1") 50 ∷ [] }

yard_is_created :
    create_yard_spaces ascii two_codes 50 lot
    ≡ done (codes "Y-1" ∷ [], codes "Y-1" ∷ []) lot_with_yard
unfolding create_yard_spaces add_codes codes_in first any strip is_blank text_eq
yard_is_created = refl

bulk_is_idempotent_example :
    (skipped : List Text) × ((codes_of ascii two_codes ≡ some skipped)
      × (create_yard_spaces ascii two_codes 60 lot_with_yard ≡ done ([], skipped) lot_with_yard))
bulk_is_idempotent_example =
    bulk_is_idempotent ascii two_codes 50 60 lot lot_with_yard yard_is_created
