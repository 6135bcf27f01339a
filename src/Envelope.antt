-- ===== src/Envelope.antt =====
-- backend/app/modules/plate_ocr/envelope.py: readings outside the capture envelope go to a human.
-- Angle, light, speed and confidence are signed numbers in one fixed unit each (a fraction of the
-- source is its exact number of thousandths).
use parking_system.Common.{
  Bool, true, false, not, ◌&&◌, ◌||◌, Option, none, some, List, [], ◌∷◌, ◌++◌, if◌then◌else◌,
}
use parking_system.Common.Int.{ℤ, ltb_ℤ, abs}
use parking_system.Python.{Text}

pub record Thresholds : Type 0 where
  pub max_angle_deg : ℤ
  pub min_lux : ℤ
  pub max_speed_kmh : ℤ
  pub low_conf : ℤ

pub data EnvelopeViolation : Type 0 where
  angle lux speed : ℤ → ℤ → EnvelopeViolation

-- `capture_quality`
pub record Quality : Type 0 where
  pub angle_deg : Option ℤ
  pub lux : Option ℤ
  pub speed_kmh : Option ℤ

pub record EnvelopeResult : Type 0 where
  pub ok : Bool
  pub review_required : Bool
  pub violations : List EnvelopeViolation

abbrev pub exceeds : Option ℤ → (ℤ → Bool) → (ℤ → EnvelopeViolation) → List EnvelopeViolation
exceeds none test name = []
exceeds (some reading) test name = if test reading then name reading ∷ [] else []

unfoldable pub capture_violations : Thresholds → Quality → List EnvelopeViolation
unfolding abs
capture_violations th q =
    exceeds q.angle_deg (λ a. ltb_ℤ th.max_angle_deg (abs a)) (λ a. angle a th.max_angle_deg)
    ++ (exceeds q.lux (λ l. ltb_ℤ l th.min_lux) (λ l. lux l th.min_lux)
        ++ exceeds q.speed_kmh (λ s. ltb_ℤ th.max_speed_kmh s) (λ s. speed s th.max_speed_kmh))

abbrev pub is_low : Option ℤ → ℤ → Bool
is_low none low = false
is_low (some confidence) low = ltb_ℤ confidence low

abbrev pub is_empty {ℓ} : {A : Type ℓ} → List A → Bool
is_empty [] = true
is_empty (_ ∷ _) = false

abbrev pub is_none {ℓ} : {A : Type ℓ} → Option A → Bool
is_none none = true
is_none (some _) = false

unfoldable pub evaluate_capture : Thresholds → Quality → Option ℤ → Option Text → EnvelopeResult
evaluate_capture th quality confidence plate_normalized =
    let violations = capture_violations th quality in
    let unknown_plate = is_none plate_normalized in
    record {
      ok = is_empty violations && not unknown_plate;
      review_required =
          is_low confidence th.low_conf || (unknown_plate || not (is_empty violations));
      violations = violations;
    }

pub data ReviewStatus : Type 0 where
  auto_ok needs_review confirmed corrected rejected : ReviewStatus

-- `low_conf` is the environment's `PLATE_REVIEW_LOW_CONF`.
unfoldable pub review_status_for : ℤ → Option ℤ → EnvelopeResult → ReviewStatus
review_status_for low_conf confidence env =
    if env.review_required
    then needs_review
    else if is_low confidence low_conf
    then needs_review
    else auto_ok
