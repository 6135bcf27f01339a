-- ===== src/GateApi/Reviews.antt =====
-- `resolve_plate_review`: a person confirms, corrects or rejects what a camera has read.
pub mod Kept
use parking_system.Common.{
  ℕ, ◌≡◌, refl, Bool, true, false, not, ◌&&◌, ◌||◌, Option, none, some, List, [], ◌∷◌, arith, inl,
  inr, Bool-cases, first, update, map, select, ◌==◌, if◌then◌else◌, text_eq, count,
}
use parking_system.Python.{Python, Text, codes, upper_all}
use parking_system.Plate.{normalize_plate}
use parking_system.Envelope.{ReviewStatus}
use parking_system.Store.{Db, PlateRecognitionEvent}

-- How the endpoint ends; a review that is refused writes nothing.
pub data Reviewed : Type 0 where
  reviewed : ReviewStatus → Db → Reviewed
  forbidden not_found : Reviewed

pub data Action : Type 0 where
  confirm correct reject : Action

-- `body.action.upper()`
unfoldable pub action_of : Python → Text → Option Action
action_of py s =
    let u = upper_all py s in
    if text_eq u (codes "CONFIRM")
    then some confirm
    else if text_eq u (codes "CORRECT")
    then some correct
    else if text_eq u (codes "REJECT")
    then some reject
    else none

-- PlateReviewResolve
pub record Resolve : Type 0 where
  pub action : Text
  pub plate_raw : Option Text
  pub note : Option Text

-- `if body.note`
abbrev pub noted : Option Text → PlateRecognitionEvent → PlateRecognitionEvent
noted none p = p
noted (some []) p = p
noted (some (c ∷ s)) p = record p { correction_note = some (c ∷ s) }

unfoldable pub corrected :
    Python → Text → Text → Option Text → ℕ → ℕ → PlateRecognitionEvent → PlateRecognitionEvent
corrected py mapping plate note user now p = record p {
  plate_corrected = some plate;
  plate_corrected_normalized = normalize_plate py mapping (some plate) none;
  corrected_by = some user;
  corrected_at = some now;
  correction_note = note;
  review_status = ReviewStatus.corrected;
}

-- The change of the row; none where a correction has no plate.
unfoldable pub resolved :
    Python
    → Text
    → Action
    → Resolve
    → ℕ
    → ℕ
    → Option (PlateRecognitionEvent → PlateRecognitionEvent)
unfolding corrected
resolved py mapping confirm body user now =
    some (λ p. noted body.note (record p { review_status = ReviewStatus.confirmed }))
resolved py mapping reject body user now =
    some (λ p. noted body.note (record p { review_status = ReviewStatus.rejected }))
resolved py mapping correct body user now = elim body.plate_raw [
  | none ↦ none
  | some plate ↦ elim plate [
    | [] ↦ none
    | c ∷ s ↦ some (corrected py mapping (c ∷ s) body.note user now)
  ]
]

abbrev pub has_row : ℕ → PlateRecognitionEvent → Bool
has_row id p = p.id == id

abbrev pub status_of : Action → ReviewStatus
status_of confirm = ReviewStatus.confirmed
status_of correct = ReviewStatus.corrected
status_of reject = ReviewStatus.rejected

unfoldable pub resolve_plate_review : Python → Text → Bool → ℕ → Resolve → ℕ → ℕ → Db → Reviewed
unfolding resolved action_of
resolve_plate_review py mapping permitted id body user now db =
    if not permitted then forbidden else elim (first (has_row id) db.recognitions) [
      | none ↦ not_found
      | some p ↦ elim (action_of py body.action) [
        | none ↦ forbidden
        | some a ↦ elim (resolved py mapping a body user now) [
          | none ↦ forbidden
          | some f ↦
              reviewed (status_of a)
                (record db { recognitions = update (has_row id) f db.recognitions })
        ]
      ]
    ]
