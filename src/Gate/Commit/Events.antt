-- ===== src/Gate/Commit/Events.antt =====
-- The event that a transaction writes: it is added behind those that were there.
use parking_system.Common.{
  ◌≡◌, refl, subst, Option, none, some, [], ◌∷◌, ◌++◌, arith, inl, inr, Bool-cases, is_some, first,
  if◌then◌else◌,
}
use parking_system.Python.{Text}
use parking_system.Model.{Gate, Vehicle}
use parking_system.Store.{Db, AccessEvent}
use parking_system.Rules.Facts.{open_for}
use parking_system.Gate.Request.{Request, event_key}
use parking_system.Gate.Decide.{apply_writes, Verdict, Reading}
use parking_system.Gate.Commit.{
  written, conflict, commit, commit_entry, enter, leave, new_event, with_event, opens_session,
  leaves, find_event,
}
use parking_system.Gate.Commit.Index.{written_same}

-- A database with the gates of another and one more event.
pub record Adds (e : AccessEvent) (db db' : Db) : Type 0 where
  pub gates : db'.gates ≡ db.gates
  pub events : db'.events ≡ db.events ++ e ∷ []

leave-Adds :
    (e : AccessEvent) (r : Request) (v : Option Vehicle) (db base : Db)
    → Adds e db base
    → Adds e db (leave r.now v base)
unfolding leave
leave-Adds e r none db base a = a
leave-Adds e r (some v) db base a = ground (arith, a.gates, a.events)

entry-Adds :
    (e : AccessEvent) (r : Request) (x : Reading) (db base db' : Db)
    → Adds e db base
    → commit_entry r x base ≡ written db'
    → Adds e db db'
unfolding commit_entry enter
entry-Adds e r x db base db' a h = entry x.normalized h
  where
    entry :
        (n : Option Text)
        → elim n [
          | none ↦ conflict
          | some p ↦
              if is_some (first (open_for p) base.sessions)
              then conflict
              else written (enter r x.vehicle p base)
        ]
          ≡ written db'
        → Adds e db db'
    entry none k = cc
    entry (some p) k = elim (Bool-cases (is_some (first (open_for p) base.sessions))) [
      | inl taken ↦ cc (rw taken at k)
      | inr free ↦
          subst (Adds e db) (written_same (rw free at k))
            (record { gates = a.gates; events = a.events })
    ]

-- What is written is the event of the verdict, with the key of the request.
pub commit-Adds :
    (gate : Gate) (r : Request) (x : Reading) (v : Verdict) (db db' : Db)
    → commit gate r x v db ≡ written db'
    → Adds (new_event gate r x v) db db'
unfolding commit apply_writes
commit-Adds gate r x v db db' h =
    let e = new_event gate r x v in
    let base = with_event e (apply_writes v.writes db) in
    let a : Adds e db base = record { gates = refl; events = refl } in
    elim (Bool-cases (is_some (find_event db (event_key gate r)))) [
      | inl known ↦ cc (rw known at h)
      | inr fresh ↦ elim (Bool-cases (opens_session r v)) [
        | inl opening ↦ entry-Adds e r x db base db' a (rw (fresh, opening) at h)
        | inr other ↦ elim (Bool-cases (leaves r v)) [
          | inl leaving ↦
              subst (Adds e db) (written_same (rw (fresh, other, leaving) at h))
                (leave-Adds e r x.vehicle db base a)
          | inr staying ↦ subst (Adds e db) (written_same (rw (fresh, other, staying) at h)) a
        ]
      ]
    ]
