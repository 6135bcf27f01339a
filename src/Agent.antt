-- ===== src/Agent.antt =====
-- gate-agent/agent: the program at the gate, which decides by itself while the centre is away
-- (decision.py), keeps what it decided (database.py, handler.py) and uploads it later (sync.py).
mod Snapshots
mod Plates
unfoldable pub use Plates.{
  agent_digit, agent_letters, agent_prepare, agent_end, agent_groups, agent_join, agent_result,
  agent_match, agent_normalize,
}
pub use Plates.{one_more, or_unknown, with_province}
unfoldable pub use Snapshots.{
  allowed_entry, used_up, offline_entry, offline_direction, offline_decide,
}
pub use Snapshots.*
pub mod Offline
pub mod Reading
pub mod Pending
pub mod Presence
use parking_system.Common.{
  ℕ, ◌+◌, ◌-◌, Bool, true, false, not, ◌&&◌, ◌||◌, Option, none, some, List, [], ◌∷◌, ◌++◌, ltb,
  leb, ◌==◌, if◌then◌else◌, any, select, text_eq, or_else, is_some,
}
use parking_system.Python.{Python, Text, codes, strip, upper_all}
use parking_system.Model.{Decision, Direction, Decoded, absent, unreadable, decoded}
use parking_system.Plate.{
  letter_map, is_separator, translate, translate_digit, remove, replace_from, iran_persian,
  iran_latin, ir, normalize_text, match_plate, render,
}
use parking_system.Gate.Request.{BarrierAction, open_barrier, keep_closed}

-- A row of `pending_events`, with the fields of its payload.
pub record PendingEvent : Type 0 where
  pub id : ℕ
  pub idempotency_key : Text
  pub source_event_id : Text
  pub direction : Direction
  pub plate_raw : Text
  pub captured_at : ℕ
  pub client_decision : Decision

-- A row of `recent_events`, without the reason, which is only shown.
pub record RecentEvent : Type 0 where
  pub plate : Text
  pub decision : Decision
  pub direction : Direction
  pub online : Bool

-- `next_id` is what AUTOINCREMENT gives next.
pub record LocalDb : Type 0 where
  pub pending_events : List PendingEvent
  pub snapshot : Option Snapshot
  pub open_entries : List Text
  pub next_id : ℕ
  pub recent_events : List RecentEvent

abbrev pub has_event_key : Text → PendingEvent → Bool
has_event_key key p = text_eq p.idempotency_key key

-- INSERT OR IGNORE
unfoldable pub add_pending : (ℕ → PendingEvent) → LocalDb → LocalDb
add_pending row db =
    if any (has_event_key (row db.next_id).idempotency_key) db.pending_events
    then db
    else record db {
      pending_events = db.pending_events ++ row db.next_id ∷ [];
      next_id = db.next_id + 1;
    }

unfoldable pub is_locally_inside : Text → LocalDb → Bool
is_locally_inside plate db = any (λ t. text_eq t plate) db.open_entries

abbrev pub passes : Decision → Bool
passes Decision.allow = true
passes Decision.allow_with_warning = true
passes Decision.offline_allow = true
passes _ = false

abbrev pub without : Text → List Text → List Text
without plate entries = select (λ t. not (text_eq t plate)) entries

-- What `log_event` does to `open_entries`.
unfoldable pub move : Text → Decision → Direction → LocalDb → LocalDb
move plate decision Direction.inward db =
    if passes decision
    then record db { open_entries = without plate db.open_entries ++ plate ∷ [] }
    else db
move plate decision Direction.outward db =
    if passes decision then record db { open_entries = without plate db.open_entries } else db

unfoldable pub log_event : Text → Decision → Direction → Bool → LocalDb → LocalDb
unfolding move
log_event plate decision direction online db = move plate decision direction (record db {
  recent_events =
      db.recent_events
      ++ record { plate = plate; decision = decision; direction = direction; online = online } ∷ [];
})

-- What the reader of the gate reports; `source_event_id` is filled in by `uuid4` if it is missing.
pub record Detection : Type 0 where
  pub gate_code : Text
  pub plate_raw : Text
  pub source_event_id : Text
  pub direction : Direction
  pub captured_at : ℕ

-- The answer of the centre, as far as it is used.
pub record Info : Type 0 where
  pub decision : Decision
  pub barrier_action : Option BarrierAction

pub record Handled : Type 0 where
  pub decision : Decision
  pub barrier_action : BarrierAction
  pub online : Bool

abbrev pub key_of : Detection → Text
key_of e = e.gate_code ++ (b':' ∷ e.source_event_id)

abbrev pub pending_row : Detection → Decision → ℕ → PendingEvent
pending_row e d id = record {
  id = id;
  idempotency_key = key_of e;
  source_event_id = e.source_event_id;
  direction = e.direction;
  plate_raw = e.plate_raw;
  captured_at = e.captured_at;
  client_decision = d;
}

abbrev pub action_of : Decision → BarrierAction
action_of d = if passes d then open_barrier else keep_closed

-- `handle_plate_event`: the centre's answer is `none` if it is offline or fails.
unfoldable pub handle_plate_event :
    Python → Detection → Option Info → ℕ → LocalDb → Handled × LocalDb
unfolding agent_normalize log_event move offline_decide add_pending is_locally_inside
handle_plate_event py e (some info) now db = (
  record {
    decision = info.decision;
    barrier_action = or_else info.barrier_action (action_of info.decision);
    online = true;
  },
  log_event (or_else (agent_normalize py e.plate_raw) e.plate_raw) info.decision e.direction true
      db,
)
handle_plate_event py e none now db =
    let normalized = agent_normalize py e.plate_raw in
    let d =
      offline_decide db.snapshot normalized e.direction
        (is_locally_inside (or_else normalized []) db) now in
    (
      record { decision = d.decision; barrier_action = d.barrier_action; online = false },
      log_event (or_else normalized e.plate_raw) d.decision e.direction false
          (add_pending (pending_row e d.decision) db),
    )

-- An entry of the `results` of the centre's answer to an upload.
pub record SyncResult : Type 0 where
  pub source_event_id : Text
  pub is_error : Bool

-- The dict `processed`: the last result for a source event.
unfoldable pub result_for : Text → List SyncResult → Option SyncResult
result_for id [] = none
result_for id (r ∷ results) = elim (result_for id results) [
  | some q ↦ some q
  | none ↦ if text_eq r.source_event_id id then some r else none
]

unfoldable pub acknowledged : List SyncResult → PendingEvent → Bool
acknowledged results p = elim (result_for p.source_event_id results) [
  | none ↦ false
  | some r ↦ not r.is_error
]

abbrev pub remove_pending : ℕ → List PendingEvent → List PendingEvent
remove_pending id = select (λ p. not (p.id == id))

-- The loop over the rows that were sent.
unfoldable pub remove_sent :
    List SyncResult → List PendingEvent → List PendingEvent → List PendingEvent
remove_sent results [] pending = pending
remove_sent results (row ∷ rows) pending =
    remove_sent results rows
      (if acknowledged results row then remove_pending row.id pending else pending)

abbrev pub first_rows : ℕ → List PendingEvent → List PendingEvent
first_rows n [] = []
first_rows n (p ∷ ps) = let rest = first_rows (n - 1) ps in if n == 0 then [] else p ∷ rest

-- `upload_pending`: at most a hundred events, oldest first; the answer is `none` if the centre is
-- offline, fails or does not report success.
unfoldable pub upload_pending : Option (List SyncResult) → LocalDb → LocalDb
unfolding remove_sent
upload_pending none db = db
upload_pending (some results) db = record db {
  pending_events = remove_sent results (first_rows 100 db.pending_events) db.pending_events;
}

-- `refresh_snapshot`
unfoldable pub refresh_snapshot : Option Snapshot → LocalDb → LocalDb
refresh_snapshot none db = db
refresh_snapshot (some s) db = record db { snapshot = some s }
