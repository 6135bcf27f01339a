-- ===== src/Gate/Process/Idempotent.antt =====
-- The indexes hold after any calls in any interleaving.
use parking_system.Common.{
  ◌≡◌, refl, subst, Option, none, some, List, [], ◌∷◌, arith, inl, inr, Bool-cases, first, any, map,
  ◌++◌,
}
use parking_system.Python.{Text}
use parking_system.Model.{Direction, Gate, Vehicle, AccessPermit}
use parking_system.Store.{Db, AccessEvent, Warning}
use parking_system.Vehicles.{PermitReason}
use parking_system.Gate.Request.{Config, Request, event_key}
use parking_system.Gate.Decide.{
  Reading, read_event, decide, decide_ruled, decide_base, decide_vehicle, decide_direction,
  decide_exit, decide_entry, decide_found, decide_permitted, close_exit,
}
use parking_system.Gate.Commit.{
  Committed, written, conflict, commit, find_event, recognition, same_source,
}
use parking_system.Gate.Decide.Locked.{writes-with_overrides, writes-with_review}
use parking_system.Gate.Commit.Index.{IsConsistent, ClosesOnly, commit-IsConsistent}
use parking_system.Gate.Process.{
  Response, Outcome, answered, gate_not_found, duplicate_response, run_event, after_conflict,
  process_plate_event, has_code, verdict_response,
}

exit_closes :
    (cfg : Config) (db : Db) (r : Request) (plate : Text) (ws : List Warning)
    → ClosesOnly (decide_exit cfg db r plate ws).writes.session
unfolding decide_exit close_exit
exit_closes cfg db r plate ws = ground arith

found_closes :
    (cfg : Config) (db : Db) (plate : Text) (p : Option AccessPermit) (reason : PermitReason)
    (ws : List Warning)
    → ClosesOnly (decide_found cfg db plate p reason ws).writes.session
unfolding decide_found decide_permitted
found_closes cfg db plate none reason ws = tt
found_closes cfg db plate (some p) reason ws = ground arith

direction_closes :
    (d : Direction) (cfg : Config) (db : Db) (gate : Gate) (r : Request) (plate : Text)
    (ws : List Warning)
    → ClosesOnly (decide_direction d cfg db gate r plate ws).writes.session
unfolding decide_direction decide_entry
direction_closes Direction.outward cfg db gate r plate ws = exit_closes cfg db r plate ws
direction_closes Direction.inward cfg db gate r plate ws = found_closes cfg db plate _ _ ws

base_closes :
    (cfg : Config) (db : Db) (gate : Gate) (r : Request) (n : Option Text) (v : Option Vehicle)
    (ws : List Warning)
    → ClosesOnly (decide_base cfg db gate r n v ws).writes.session
unfolding decide_base decide_vehicle
base_closes cfg db gate r none v ws = tt
base_closes cfg db gate r (some plate) none ws = tt
base_closes cfg db gate r (some plate) (some v) ws =
    ground (arith, direction_closes r.direction cfg db gate r plate ws)

decide_closes :
    (cfg : Config) (db : Db) (gate : Gate) (r : Request) (x : Reading)
    → ClosesOnly (decide cfg db gate r x).writes.session
unfolding decide decide_ruled
decide_closes cfg db gate r x =
    rw (writes-with_review, writes-with_overrides)
      (base_closes cfg db gate r x.normalized x.vehicle (map Warning.envelope x.capture.violations))

conflict-IsConsistent :
    (db db' : Db) (gate : Gate) (r : Request) (x : Reading) {resp : Response}
    → after_conflict db gate r x ≡ answered resp db'
    → db ≡ db'
unfolding after_conflict
conflict-IsConsistent db db' gate r x h = ground arith

answered_same : {a b : Db} {p q : Response} → answered p a ≡ answered q b → a ≡ b
answered_same h = cc

outcome_of :
    (now db' : Db) (resp q : Response) (other : Outcome) (c : Committed)
    → IsConsistent now
    → ((d : Db) → c ≡ written d → IsConsistent d)
    → (other ≡ answered q db' → now ≡ db')
    → elim c [ written d ↦ answered resp d | conflict ↦ other ] ≡ answered q db'
    → IsConsistent db'
outcome_of now db' resp q other (written d) c keeps same h =
    subst IsConsistent (answered_same h) (keeps d refl)
outcome_of now db' resp q other conflict c keeps same h = subst IsConsistent (same h) c

run-IsConsistent :
    (cfg : Config) (db now db' : Db) (gate : Gate) (r : Request) {resp : Response}
    → IsConsistent now
    → run_event cfg db now gate r ≡ answered resp db'
    → IsConsistent db'
unfolding run_event
run-IsConsistent cfg db now db' gate r {resp} c h =
    let x = read_event cfg db r in
    let v = decide cfg db gate r x in
    let seen = record now { recognitions = now.recognitions ++ recognition gate r x ∷ [] } in
    elim (Bool-cases r.dry_run) [
      | inl dry ↦ subst IsConsistent (answered_same (simp dry at h)) c
      | inr wet ↦ elim (Bool-cases (any (same_source r) now.recognitions)) [
        | inl twice ↦ cc (simp (wet, twice) at h)
        | inr once ↦
            outcome_of now db' (verdict_response now gate r x v) resp (after_conflict now gate r x)
              (commit gate r x v seen) c
              (λ d e.
                commit-IsConsistent gate r x v seen d (decide_closes cfg db gate r x)
                  (record { keys = c.keys; opened = c.opened }) e)
              (conflict-IsConsistent now db' gate r x) (simp (wet, once) at h)
      ]
    ]

-- Whatever database the decision was read from, a call that is answered keeps it that there is at most
-- one event for a key and at most one open session for a plate.
pub process-IsConsistent :
    (cfg : Config) (db now db' : Db) (r : Request) {resp : Response}
    → IsConsistent now
    → process_plate_event cfg db now r ≡ answered resp db'
    → IsConsistent db'
unfolding process_plate_event
process-IsConsistent cfg db now db' r {resp} c h = at_gate (first (has_code r.gate_code) db.gates) h
  where
    at_event :
        (gate : Gate) (o : Option AccessEvent)
        → elim o [
          | some e ↦ answered (duplicate_response e []) now
          | none ↦ run_event cfg db now gate r
        ]
          ≡ answered resp db'
        → IsConsistent db'
    at_event gate none e = run-IsConsistent cfg db now db' gate r c e
    at_event gate (some event) e = subst IsConsistent (answered_same e) c

    at_gate :
        (o : Option Gate)
        → elim o [
          | none ↦ gate_not_found
          | some gate ↦ elim (find_event db (event_key gate r)) [
            | some e ↦ answered (duplicate_response e []) now
            | none ↦ run_event cfg db now gate r
          ]
        ]
          ≡ answered resp db'
        → IsConsistent db'
    at_gate none e = cc
    at_gate (some gate) e = at_event gate (find_event db (event_key gate r)) e

-- Calls in any order, each deciding on any database at all: one step is one call that is answered.
pub data Reach (cfg : Config) (start : Db) : Db → Type 0 where
  here : Reach cfg start start
  call :
      {now db' : Db} (db : Db) (r : Request) (resp : Response)
      → Reach cfg start now
      → process_plate_event cfg db now r ≡ answered resp db'
      → Reach cfg start db'

-- From tables with at most one event for a key and at most one open session for a plate, any number of
-- answered calls leads to such tables again, however stale the databases are that they decided on.
pub Reach-IsConsistent :
    (cfg : Config) (start : Db) {db : Db}
    → IsConsistent start
    → Reach cfg start db
    → IsConsistent db
Reach-IsConsistent cfg start c here = c
Reach-IsConsistent cfg start c (call {now} {db'} db r resp reached h) =
    process-IsConsistent cfg db now db' r (Reach-IsConsistent cfg start c reached) h
