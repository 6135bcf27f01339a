-- ===== src/GateApi/Reviews/Kept.antt =====
-- A review keeps what the camera has read.
use parking_system.Common.{
  ℕ, ◌≡◌, refl, ◌∙◌, ap, subst, Bool, true, false, not, Option, none, some, some_same, List, [],
  ◌∷◌, inl, inr, Bool-cases, All, first, update, map, select, ◌==◌,
}
use parking_system.Python.{Python, Text}
use parking_system.Envelope.{ReviewStatus}
use parking_system.Store.{Db, PlateRecognitionEvent}
use parking_system.GateApi.Reviews.{
  reviewed, forbidden, not_found, Action, confirm, correct, reject, Resolve, action_of, noted,
  corrected, resolved, has_row, status_of, resolve_plate_review,
}

-- What the camera has read, and under which identifiers.
abbrev pub reading : PlateRecognitionEvent → ℕ × Text × Option Text × Text
reading p = (p.id, p.plate_raw, p.plate_normalized, p.source_event_id)

-- A review of the row: the database differs in that row only, whose reading is kept and whose status
-- is the new one.
pub record IsReview (id : ℕ) (s : ReviewStatus) (db db' : Db) : Type 0 where
  pub readings : map reading db'.recognitions ≡ map reading db.recognitions
  pub others :
      select (λ p. not (has_row id p)) db'.recognitions
      ≡ select (λ p. not (has_row id p)) db.recognitions
  pub status : All (λ p. has_row id p ≡ true → p.review_status ≡ s) db'.recognitions
  pub rest : db' ≡ record db { recognitions = db'.recognitions }

-- A change of a row that keeps its reading and sets its status.
abbrev Sets : ReviewStatus → (PlateRecognitionEvent → PlateRecognitionEvent) → Type 0
Sets s f = (p : PlateRecognitionEvent) → (reading (f p) ≡ reading p) × ((f p).review_status ≡ s)

noted_keeps :
    (remark : Option Text) (p : PlateRecognitionEvent)
    → (reading (noted remark p) ≡ reading p) × ((noted remark p).review_status ≡ p.review_status)
noted_keeps none p = (refl, refl)
noted_keeps (some []) p = (refl, refl)
noted_keeps (some (c ∷ s)) p = (refl, refl)

module _ (id : ℕ) (s : ReviewStatus) (f : PlateRecognitionEvent → PlateRecognitionEvent)
    (sets : Sets s f) where
  update-readings :
      (ps : List PlateRecognitionEvent) → map reading (update (has_row id) f ps) ≡ map reading ps
  unfolding update
  update-readings [] = refl
  update-readings (p ∷ ps) = elim (Bool-cases (has_row id p)) [
    | inl hit ↦ rw (hit, update-readings ps, (sets p).0) refl
    | inr miss ↦ rw (miss, update-readings ps) refl
  ]

  still_hit : (p : PlateRecognitionEvent) → has_row id p ≡ true → has_row id (f p) ≡ true
  still_hit p hit = ap (λ r. r.0 == id) ((sets p).0) ∙ hit

  update-others :
      (ps : List PlateRecognitionEvent)
      → select (λ p. not (has_row id p)) (update (has_row id) f ps)
        ≡ select (λ p. not (has_row id p)) ps
  unfolding update select
  update-others [] = refl
  update-others (p ∷ ps) = elim (Bool-cases (has_row id p)) [
    | inl hit ↦ rw (hit, still_hit p hit, update-others ps) refl
    | inr miss ↦ rw (miss, miss, update-others ps) refl
  ]

  update-status :
      (ps : List PlateRecognitionEvent)
      → All (λ p. has_row id p ≡ true → p.review_status ≡ s) (update (has_row id) f ps)
  unfolding update
  update-status [] = tt
  update-status (p ∷ ps) = elim (Bool-cases (has_row id p)) [
    | inl hit ↦ rw hit ((λ _. (sets p).1), update-status ps)
    | inr miss ↦ rw miss ((λ h. cc (h, miss)), update-status ps)
  ]

noted-Sets :
    (remark : Option Text) (s : ReviewStatus)
    → Sets s (λ p. noted remark (record p { review_status = s }))
noted-Sets remark s p = noted_keeps remark (record p { review_status = s })

corrected-Sets :
    (py : Python) (mapping : Text) (plate : Text) (remark : Option Text) (user now : ℕ)
    → Sets ReviewStatus.corrected (corrected py mapping plate remark user now)
unfolding corrected
corrected-Sets py mapping plate remark user now p = (refl, refl)

resolved-Sets :
    (py : Python) (mapping : Text) (a : Action) (body : Resolve) (user now : ℕ)
    {f : PlateRecognitionEvent → PlateRecognitionEvent}
    → resolved py mapping a body user now ≡ some f
    → Sets (status_of a) f
unfolding resolved
resolved-Sets py mapping confirm body user now {f} h =
    subst (Sets ReviewStatus.confirmed) (some_same h) (noted-Sets body.note ReviewStatus.confirmed)
resolved-Sets py mapping reject body user now {f} h =
    subst (Sets ReviewStatus.rejected) (some_same h) (noted-Sets body.note ReviewStatus.rejected)
resolved-Sets py mapping correct body user now {f} h = typed body.plate_raw h
  where
    typed :
        (o : Option Text)
        → elim o [
          | none ↦ none
          | some plate ↦ elim plate [
            | [] ↦ none
            | c ∷ s ↦ some (corrected py mapping (c ∷ s) body.note user now)
          ]
        ]
          ≡ some f
        → Sets ReviewStatus.corrected f
    typed none k = cc
    typed (some []) k = cc
    typed (some (c ∷ s)) k =
        subst (Sets ReviewStatus.corrected) (some_same k)
          (corrected-Sets py mapping (c ∷ s) body.note user now)

reviewed_same : {s t : ReviewStatus} {a b : Db} → reviewed s a ≡ reviewed t b → (s ≡ t) × (a ≡ b)
reviewed_same h = (cc, cc)

-- A review that is accepted keeps every row's reading and identifiers, sets the status of the rows of
-- its identifier to the one it answers, and changes no other row and no other table.
pub resolve_keeps_readings :
    (py : Python) (mapping : Text) (permitted : Bool) (id : ℕ) (body : Resolve) (user now : ℕ)
    (db db' : Db) {s : ReviewStatus}
    → resolve_plate_review py mapping permitted id body user now db ≡ reviewed s db'
    → IsReview id s db db'
unfolding resolve_plate_review
resolve_keeps_readings py mapping false id body user now db db' {s} h = cc
resolve_keeps_readings py mapping true id body user now db db' {s} h =
    row (first (has_row id) db.recognitions) (action_of py body.action) h
  where
    changed :
        (a : Action) (o : Option (PlateRecognitionEvent → PlateRecognitionEvent))
        → resolved py mapping a body user now ≡ o
        → elim o [
          | none ↦ forbidden
          | some f ↦
              reviewed
                (status_of a)
                (record db { recognitions = update (has_row id) f db.recognitions })
        ]
          ≡ reviewed s db'
        → IsReview id s db db'
    changed a none e k = cc
    changed a (some f) e k =
        let sets = resolved-Sets py mapping a body user now e in
        subst (λ t. IsReview id t db db') ((reviewed_same k).0)
          (subst (IsReview id (status_of a) db) ((reviewed_same k).1) (record {
            readings = update-readings id (status_of a) f sets db.recognitions;
            others = update-others id (status_of a) f sets db.recognitions;
            status = update-status id (status_of a) f sets db.recognitions;
            rest = refl;
          }))

    row :
        (o : Option PlateRecognitionEvent) (act : Option Action)
        → elim o [
          | none ↦ not_found
          | some p ↦ elim act [
            | none ↦ forbidden
            | some a ↦ elim (resolved py mapping a body user now) [
              | none ↦ forbidden
              | some f ↦
                  reviewed
                    (status_of a)
                    (record db { recognitions = update (has_row id) f db.recognitions })
            ]
          ]
        ]
          ≡ reviewed s db'
        → IsReview id s db db'
    row none act k = cc
    row (some p) none k = cc
    row (some p) (some a) k = changed a (resolved py mapping a body user now) refl k
