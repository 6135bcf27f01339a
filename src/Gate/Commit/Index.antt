-- ===== src/Gate/Commit/Index.antt =====
-- The two unique indexes: one event for a key, one open session for a plate.
use parking_system.Common.{
  ℕ, ◌≤◌, ◌≡◌, refl, sym, ◌∙◌, subst, true, false, Option, none, some, [], ◌∷◌, ◌++◌, arith, inl,
  inr, Bool-cases, is_some, count, count_new, count-update_le, update, first, first-none-count,
  text_eq→eq, ◌==◌, if◌then◌else◌,
}
use parking_system.Python.{Text}
use parking_system.Model.{Gate, Vehicle, ParkingSession}
use parking_system.Store.{Db, AccessEvent}
use parking_system.Rules.Facts.{open_for, is_open}
use parking_system.Gate.Request.{Request, event_key}
use parking_system.Gate.Decide.{apply_writes, close_columns, Writes, Verdict, Reading}
use parking_system.Gate.Commit.{
  written, conflict, new_event, new_session, enter, leave, commit_entry, commit, has_key,
  find_event, with_event, opens_session, leaves,
}

pub record IsConsistent (db : Db) : Type 0 where
  pub keys : (k : Text) → count (has_key k) db.events ≤ 1
  pub opened : (plate : Text) → count (open_for plate) db.sessions ≤ 1

-- A verdict's session row is not open.
abbrev pub ClosesOnly : Option ParkingSession → Type 0
ClosesOnly none = Unit
ClosesOnly (some s) = is_open s.status ≡ false

closed_not_open :
    (plate : Text) (s t : ParkingSession)
    → is_open s.status ≡ false
    → open_for plate (close_columns s t) ≡ true
    → open_for plate t ≡ true
closed_not_open plate s t h k = ground arith

writes_opened :
    (w : Writes) (db : Db) (plate : Text)
    → ClosesOnly w.session
    → count (open_for plate) (apply_writes w db).sessions ≤ count (open_for plate) db.sessions
unfolding apply_writes
writes_opened w db plate h = closing w.session h
  where
    closing :
        (o : Option ParkingSession)
        → ClosesOnly o
        → count (open_for plate) (elim o [
          | none ↦ db.sessions
          | some s ↦ update (λ t. t.id == s.id) (close_columns s) db.sessions
        ])
          ≤ count (open_for plate) db.sessions
    closing none c = omega arith
    closing (some s) c =
        count-update_le (open_for plate) (λ t. t.id == s.id) (close_columns s) db.sessions
          (λ t k. closed_not_open plate s t c k)

none_of_is_some {ℓ} : {A : Type ℓ} (o : Option A) → is_some o ≡ false → o ≡ none
none_of_is_some none h = refl
none_of_is_some (some a) h = cc

with_event_keys :
    (db : Db) (key k : Text) (e : AccessEvent)
    → e.idempotency_key ≡ key
    → find_event db key ≡ none
    → count (has_key k) db.events ≤ 1
    → count (has_key k) (db.events ++ e ∷ []) ≤ 1
unfolding find_event
with_event_keys db key k e same fresh h =
    count_new has_key key k db.events e (λ hit. sym same ∙ text_eq→eq e.idempotency_key k hit) h
      (first-none-count (has_key key) db.events fresh)

pub written_same : {a b : Db} → written a ≡ written b → a ≡ b
written_same h = cc

open_plate : (k : Text) (s : ParkingSession) → open_for k s ≡ true → s.plate_normalized ≡ k
open_plate k s h = text_eq→eq s.plate_normalized k (ground arith)

enter-IsConsistent :
    (r : Request) (v : Option Vehicle) (plate : Text) (db : Db)
    → first (open_for plate) db.sessions ≡ none
    → IsConsistent db
    → IsConsistent (enter r v plate db)
unfolding enter
enter-IsConsistent r v plate db fresh c = record {
  keys = c.keys;
  opened = λ k.
      count_new open_for plate k db.sessions (new_session r v plate)
        (open_plate k (new_session r v plate)) (c.opened k)
        (first-none-count (open_for plate) db.sessions fresh);
}

leave_rows :
    (now : ℕ) (v : Option Vehicle) (db : Db)
    → ((leave now v db).events ≡ db.events) × ((leave now v db).sessions ≡ db.sessions)
unfolding leave
leave_rows now none db = (refl, refl)
leave_rows now (some v) db = ground arith

leave-IsConsistent :
    (now : ℕ) (v : Option Vehicle) (db : Db) → IsConsistent db → IsConsistent (leave now v db)
leave-IsConsistent now v db c = record {
  keys = λ k. rw ((leave_rows now v db).0) (c.keys k);
  opened = λ k. rw ((leave_rows now v db).1) (c.opened k);
}

commit_entry-IsConsistent :
    (r : Request) (x : Reading) (db db' : Db)
    → IsConsistent db
    → commit_entry r x db ≡ written db'
    → IsConsistent db'
unfolding commit_entry
commit_entry-IsConsistent r x db db' c h = entry x.normalized h
  where
    entry :
        (n : Option Text)
        → elim n [
          | none ↦ conflict
          | some plate ↦
              if is_some (first (open_for plate) db.sessions)
              then conflict
              else written (enter r x.vehicle plate db)
        ]
          ≡ written db'
        → IsConsistent db'
    entry none e = cc
    entry (some plate) e = elim (Bool-cases (is_some (first (open_for plate) db.sessions))) [
      | inl taken ↦ cc (rw taken at e)
      | inr free ↦
          subst IsConsistent (written_same (rw free at e))
            (enter-IsConsistent r x.vehicle plate db (none_of_is_some _ free) c)
    ]

pub event_key_lem :
    (gate : Gate) (r : Request) (x : Reading) (v : Verdict)
    → (new_event gate r x v).idempotency_key ≡ event_key gate r
unfolding new_event
event_key_lem gate r x v = refl

events-apply_writes : (w : Writes) (db : Db) → (apply_writes w db).events ≡ db.events
unfolding apply_writes
events-apply_writes w db = refl

base-IsConsistent :
    (gate : Gate) (r : Request) (x : Reading) (v : Verdict) (db : Db)
    → ClosesOnly v.writes.session
    → find_event db (event_key gate r) ≡ none
    → IsConsistent db
    → IsConsistent (with_event (new_event gate r x v) (apply_writes v.writes db))
base-IsConsistent gate r x v db closes fresh c = record {
  keys = λ k. rw (events-apply_writes v.writes db) (
      with_event_keys db (event_key gate r) k (new_event gate r x v) (event_key_lem gate r x v)
        fresh (c.keys k));
  opened = λ k. omega (arith, writes_opened v.writes db k closes, c.opened k);
}

-- A transaction whose session row is closed keeps both indexes.
pub commit-IsConsistent :
    (gate : Gate) (r : Request) (x : Reading) (v : Verdict) (db db' : Db)
    → ClosesOnly v.writes.session
    → IsConsistent db
    → commit gate r x v db ≡ written db'
    → IsConsistent db'
unfolding commit
commit-IsConsistent gate r x v db db' closes c h =
    elim (Bool-cases (is_some (find_event db (event_key gate r)))) [
      | inl taken ↦ cc (rw taken at h)
      | inr free ↦
          let base = base-IsConsistent gate r x v db closes (none_of_is_some _ free) c in
          elim (Bool-cases (opens_session r v)) [
            | inl opening ↦ commit_entry-IsConsistent r x _ db' base (rw (free, opening) at h)
            | inr other ↦ elim (Bool-cases (leaves r v)) [
              | inl leaving ↦
                  subst IsConsistent (written_same (rw (free, other, leaving) at h))
                    (leave-IsConsistent r.now x.vehicle _ base)
              | inr staying ↦
                  subst IsConsistent (written_same (rw (free, other, staying) at h)) base
            ]
          ]
    ]
