-- ===== src/Agent/Pending.antt =====
-- The events that wait for the centre: none is lost, none is kept twice.
use parking_system.Common.{
  ℕ, ◌≤◌, ◌≡◌, refl, sym, Bool, true, false, not, ◌&&◌, ◌||◌, Option, none, some, List, [], ◌∷◌,
  ◌++◌, arith, inl, inr, Bool-cases, count, count_new, any, select, text_eq→eq, text_eq_refl, ◌==◌,
}
use parking_system.Python.{Python, Text}
use parking_system.Model.{Decision, Direction}
use parking_system.Agent.{
  PendingEvent, LocalDb, Snapshot, Detection, Info, SyncResult, has_event_key, add_pending, move,
  log_event, key_of, pending_row, handle_plate_event, remove_sent, remove_pending, acknowledged,
  first_rows, upload_pending, refresh_snapshot,
}

-- Was the row of this identifier sent and acknowledged?
abbrev pub is_done : List SyncResult → List PendingEvent → PendingEvent → Bool
is_done results rows p = any (λ r. acknowledged results r && (p.id == r.id)) rows

select_all :
    (q : PendingEvent → Bool) (ps : List PendingEvent)
    → ((p : PendingEvent) → q p ≡ true)
    → select q ps ≡ ps
unfolding select
select_all q [] h = refl
select_all q (p ∷ ps) h = rw (h p, select_all q ps h) refl

select_twice :
    (q r t : PendingEvent → Bool) (ps : List PendingEvent)
    → ((p : PendingEvent) → t p ≡ (r p && q p))
    → select q (select r ps) ≡ select t ps
unfolding select
select_twice q r t [] h = refl
select_twice q r t (p ∷ ps) h = ground (arith, h p, select_twice q r t ps h)

select_same :
    (q r : PendingEvent → Bool) (ps : List PendingEvent)
    → ((p : PendingEvent) → q p ≡ r p)
    → select q ps ≡ select r ps
unfolding select
select_same q r [] h = refl
select_same q r (p ∷ ps) h = ground (arith, h p, select_same q r ps h)

remove_sent_lem :
    (results : List SyncResult) (rows ps : List PendingEvent)
    → remove_sent results rows ps ≡ select (λ p. not (is_done results rows p)) ps
unfolding remove_sent any
remove_sent_lem results [] ps = sym (select_all (λ p. true) ps (λ p. refl))
remove_sent_lem results (row ∷ rows) ps = elim (Bool-cases (acknowledged results row)) [
  | inl told ↦
      rw (told, remove_sent_lem results rows (remove_pending row.id ps))
        (select_twice (λ p. not (is_done results rows p)) (λ p. not (p.id == row.id))
          (λ p. not ((p.id == row.id) || is_done results rows p)) ps (λ p. ground arith))
  | inr untold ↦ rw (untold, remove_sent_lem results rows ps) refl
]

-- An upload that succeeds removes the rows whose identifier was sent and acknowledged without an
-- error, and leaves every other event pending, in its place.
pub upload-select :
    (results : List SyncResult) (db : LocalDb)
    → (upload_pending (some results) db).pending_events
      ≡ select (λ p. not (is_done results (first_rows 100 db.pending_events) p)) db.pending_events
unfolding upload_pending
upload-select results db =
    remove_sent_lem results (first_rows 100 db.pending_events) db.pending_events

any-append :
    (key : Text) (ps : List PendingEvent) (p : PendingEvent)
    → has_event_key key p ≡ true
    → any (has_event_key key) (ps ++ p ∷ []) ≡ true
unfolding any
any-append key [] p h = ground arith
any-append key (q ∷ ps) p h = ground (arith, any-append key ps p h)

add_pending_has :
    (e : Detection) (d : Decision) (db : LocalDb)
    → any (has_event_key (key_of e)) (add_pending (pending_row e d) db).pending_events ≡ true
unfolding add_pending
add_pending_has e d db = elim (Bool-cases (any (has_event_key (key_of e)) db.pending_events)) [
  | inl known ↦ rw known known
  | inr fresh ↦ rw fresh (
      any-append (key_of e) db.pending_events (pending_row e d db.next_id)
        (text_eq_refl (key_of e)))
]

pending-log :
    (plate : Text) (d : Decision) (dir : Direction) (online : Bool) (db : LocalDb)
    → (log_event plate d dir online db).pending_events ≡ db.pending_events
unfolding log_event move
pending-log plate d Direction.inward online db = ground arith
pending-log plate d Direction.outward online db = ground arith

-- An event that the gate decides by itself waits for the centre under its key.
pub offline_is_pending :
    (py : Python) (e : Detection) (now : ℕ) (db : LocalDb)
    → any (has_event_key (key_of e)) (handle_plate_event py e none now db).1.pending_events ≡ true
unfolding handle_plate_event
offline_is_pending py e now db = rw (pending-log _ _ e.direction _ _) (add_pending_has e _ db)

-- At most one event is pending for a key.
abbrev pub IsUnique : LocalDb → Type 0
IsUnique db = (key : Text) → count (has_event_key key) db.pending_events ≤ 1

count-select-le :
    (p q : PendingEvent → Bool) (ps : List PendingEvent) → count p (select q ps) ≤ count p ps
unfolding count select
count-select-le p q [] = omega arith
count-select-le p q (x ∷ ps) = ground (arith, count-select-le p q ps)

any-false-count :
    (p : PendingEvent → Bool) (ps : List PendingEvent) → any p ps ≡ false → count p ps ≡ 0
unfolding any count
any-false-count p [] h = refl
any-false-count p (x ∷ ps) h = ground (arith, any-false-count p ps)

add_pending-IsUnique :
    (e : Detection) (d : Decision) (db : LocalDb)
    → IsUnique db
    → IsUnique (add_pending (pending_row e d) db)
unfolding add_pending
add_pending-IsUnique e d db u key =
    elim (Bool-cases (any (has_event_key (key_of e)) db.pending_events)) [
      | inl known ↦ rw known (u key)
      | inr fresh ↦ rw fresh (
          count_new has_event_key (key_of e) key db.pending_events (pending_row e d db.next_id)
            (text_eq→eq (key_of e) key) (u key)
            (any-false-count (has_event_key (key_of e)) db.pending_events fresh))
    ]

-- One step of the agent: an event, whatever the centre answers, an upload or a new snapshot.
pub data Step (db : LocalDb) : LocalDb → Type 0 where
  event :
      (py : Python) (e : Detection) (info : Option Info) (now : ℕ)
      → Step db (handle_plate_event py e info now db).1
  upload : (results : Option (List SyncResult)) → Step db (upload_pending results db)
  refresh : (s : Option Snapshot) → Step db (refresh_snapshot s db)

pub data Runs (start : LocalDb) : LocalDb → Type 0 where
  idle : Runs start start
  next : {a b : LocalDb} → Runs start a → Step a b → Runs start b

event-IsUnique :
    (py : Python) (e : Detection) (info : Option Info) (now : ℕ) (db : LocalDb)
    → IsUnique db
    → IsUnique (handle_plate_event py e info now db).1
unfolding handle_plate_event
event-IsUnique py e (some info) now db u key = rw (pending-log _ _ e.direction _ _) (u key)
event-IsUnique py e none now db u key =
    rw (pending-log _ _ e.direction _ _) (add_pending-IsUnique e _ db u key)

Step-IsUnique : (a b : LocalDb) → IsUnique a → Step a b → IsUnique b
unfolding refresh_snapshot upload_pending
Step-IsUnique a b u (event py e info now) = event-IsUnique py e info now a u
Step-IsUnique a b u (upload none) = u
Step-IsUnique a b u (upload (some results)) = λ key.
    rw (remove_sent_lem results (first_rows 100 a.pending_events) a.pending_events) (
      omega (
        arith,
        u key,
        count-select-le (has_event_key key)
            (λ p. not (is_done results (first_rows 100 a.pending_events) p)) a.pending_events,
      ))
Step-IsUnique a b u (refresh none) = u
Step-IsUnique a b u (refresh (some s)) = u

-- From a start where at most one event is pending for a key, this holds after any sequence of events,
-- uploads and new snapshots, however often the connection comes and goes.
pub Runs-IsUnique : (start : LocalDb) {db : LocalDb} → IsUnique start → Runs start db → IsUnique db
Runs-IsUnique start u idle = u
Runs-IsUnique start u (next {a} {b} reached step) =
    Step-IsUnique a b (Runs-IsUnique start u reached) step
