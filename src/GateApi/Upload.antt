-- ===== src/GateApi/Upload.antt =====
-- An upload from end to end: upload_pending of gate-agent/agent/sync.py against `sync_offline`.
pub mod Arrival
pub mod NotLost
use parking_system.Common.{
  ℕ, ◌≡◌, ◌⊎◌, refl, sym, ◌∙◌, ap, subst, Bool, true, false, not, ◌&&◌, ◌||◌, ◌++◌, Option, none,
  some, some_same, List, [], ◌∷◌, map, arith, inl, inr, Bool-cases, is_some, first, first_passes,
  any, select, All, if◌then◌else◌, text_eq, text_eq→eq, ◌==◌, ltb,
}
use parking_system.Common.Int.{pos}
use parking_system.Python.{Text}
use parking_system.Model.{Gate}
use parking_system.Store.{Db}
use parking_system.Gate.Request.{Config}
use parking_system.Gate.Process.{has_code, session_conflict}
use parking_system.Gate.Process.Stored.{knows, Keeps}
use parking_system.Agent.{
  PendingEvent, LocalDb, SyncResult, result_for, acknowledged, first_rows, upload_pending,
}
use parking_system.Agent.Pending.{is_done, upload-select}
use parking_system.GateApi.{
  Detected, SyncRow, sync_events, sync_offline, sort_events, insert_event, sort_key, answer_of,
}
use parking_system.GateApi.Sync.{Settled, AllSettled, key_at, sync_events-AllSettled}

-- A pending event as `upload_pending` posts it and `sync_offline` reads it; the clock readings and
-- the identifiers are those of `draw`.
unfoldable pub posted : Text → (PendingEvent → Detected) → PendingEvent → Detected
posted code draw p = record (draw p) {
  gate_code = code;
  direction = p.direction;
  plate_raw = p.plate_raw;
  source_event_id = p.source_event_id;
  device_id = none;
  captured_at = some p.captured_at;
  confidence = some (pos 97500);
  client_decision = some p.client_decision;
  driver_request = none;
}

-- A line of the answer as the gate reads it.
abbrev pub to_result : SyncRow → SyncResult
to_result row = record {
  source_event_id = row.source_event_id;
  is_error = not (is_some row.answer);
}

-- The request and its answer.
unfoldable pub exchange :
    Config → Text → (PendingEvent → Detected) → LocalDb → Db → List SyncRow × Db
unfolding sync_offline posted
exchange cfg code draw local centre =
    sync_offline cfg (map (posted code draw) (first_rows 100 local.pending_events)) centre

-- `upload_pending` where the centre answers.
unfoldable pub upload : Config → Text → (PendingEvent → Detected) → LocalDb → Db → LocalDb × Db
unfolding exchange upload_pending
upload cfg code draw local centre =
    let (rows, centre') = exchange cfg code draw local centre in
    (upload_pending (some (map to_result rows)) local, centre')
