-- ===== src/Tests/Agents.antt =====
-- Witnesses on the program at the gate.
use parking_system.Common.{
  ℕ, ◌≡◌, refl, true, false, not, none, some, [], ◌∷◌, arith, any, count, select, text_eq,
}
use parking_system.Python.{Text, codes, upper_all, is_lower, is_blank}
use parking_system.Model.{Direction, Decoded}
use parking_system.Plate.{normalize_plate, get_letter_map, letter_map, translate, translate_letter}
use parking_system.Gate.Request.{open_barrier}
use parking_system.Agent.{
  Snapshot, AllowedPlate, LocalDb, Detection, offline_decide, handle_plate_event, upload_pending,
  first_rows, agent_normalize, offline_direction, offline_entry, allowed_entry, used_up,
}
use parking_system.Agent.Offline.{MayPass, offline_opens}
use parking_system.Agent.Reading.{backend_reads_translated}
use parking_system.Agent.Pending.{
  is_done, upload-select, IsUnique, event, upload, idle, next, Runs-IsUnique,
}
use parking_system.Gate.Request.{Request}
use parking_system.Gate.Decide.{read_event, decide}
use parking_system.Gate.Process.{verdict_response}
use parking_system.Gate.Process.Uploads.{upload_needs_review}
use parking_system.Tests.Fixtures.{ascii, plate, noon, config, lot, gate, request}

abbrev member : AllowedPlate
member = record {
  plate = plate;
  valid_until = Decoded.absent;
  max_entries = some 5;
  used_entries = some 1;
}

abbrev snapshot : Snapshot
snapshot = record { allowed_plates = member ∷ []; restricted_plates = [] }

abbrev local_db : LocalDb
local_db = record {
  pending_events = [];
  snapshot = some snapshot;
  open_entries = [];
  next_id = 1;
  recent_events = [];
}

abbrev arrival : Detection
arrival = record {
  gate_code = codes "G1";
  plate_raw = plate;
  source_event_id = codes "s1";
  direction = Direction.inward;
  captured_at = noon;
}

member_opens :
    (offline_decide (some snapshot) (some plate) Direction.inward false noon).barrier_action
    ≡ open_barrier
unfolding offline_decide offline_direction offline_entry any allowed_entry text_eq used_up
member_opens = refl

offline_opens_example : MayPass (some snapshot) (some plate) Direction.inward false noon
offline_opens_example =
    offline_opens (some snapshot) (some plate) Direction.inward false noon member_opens

abbrev waiting : LocalDb
waiting = (handle_plate_event ascii arrival none noon local_db).1

upload-select_example :
    (upload_pending
      (some (record { source_event_id = codes "s1"; is_error = true } ∷ []))
      waiting).pending_events
    ≡ select
        (λ p. not (
          is_done
            (record { source_event_id = codes "s1"; is_error = true } ∷ [])
            (first_rows 100 waiting.pending_events)
            p))
        waiting.pending_events
upload-select_example =
    upload-select (record { source_event_id = codes "s1"; is_error = true } ∷ []) waiting

local_db-IsUnique : IsUnique local_db
unfolding count
local_db-IsUnique = λ key. omega arith

Runs-IsUnique_example : IsUnique (upload_pending (some []) waiting)
Runs-IsUnique_example =
    Runs-IsUnique local_db local_db-IsUnique
      (next (next idle (event ascii arrival none noon)) (upload (some [])))

mode_is_many : get_letter_map ascii (codes "MANY_TO_ONE") ≡ letter_map
unfolding get_letter_map upper_all text_eq is_lower
mode_is_many = refl

-- A plate with the Arabic kaf.
abbrev arabic : Text
arabic = 49 ∷ 50 ∷ 0x643 ∷ 51 ∷ 52 ∷ 53 ∷ []

letters_are_no_space : (c : ℕ) → ascii.is_space (translate_letter c) ≡ ascii.is_space c
unfolding translate_letter is_blank
letters_are_no_space c = ground arith

backend_reads_translated_example :
    normalize_plate ascii (codes "MANY_TO_ONE") (some arabic) none
    ≡ agent_normalize ascii (translate translate_letter arabic)
backend_reads_translated_example =
    backend_reads_translated ascii arabic mode_is_many letters_are_no_space

abbrev uploaded : Request
uploaded = record request {
  client_decision =
      some (offline_decide (some snapshot) (some plate) Direction.inward false noon).decision;
  offline_created = true;
}

upload_needs_review_example :
    (verdict_response lot gate uploaded
      (read_event config lot uploaded)
      (decide config lot gate uploaded (read_event config lot uploaded))).needs_review
    ≡ true
upload_needs_review_example =
    upload_needs_review config lot gate uploaded (read_event config lot uploaded) (some snapshot)
      (some plate) Direction.inward false noon refl
