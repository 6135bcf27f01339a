-- ===== src/Gate/Process/Repeats.antt =====
-- An event that was answered is answered alike whenever it comes again.
use parking_system.Common.{
  ◌≡◌, ◌⊎◌, refl, ◌∙◌, true, false, Option, none, some, [], inl, inr, first,
}
use parking_system.Model.{Gate}
use parking_system.Store.{Db, AccessEvent}
use parking_system.Gate.Request.{Config, Request, event_key}
use parking_system.Gate.Commit.{find_event}
use parking_system.Gate.Process.{
  Response, answered, gate_not_found, duplicate_response, session_conflict, run_event,
  process_plate_event, has_code,
}
use parking_system.Gate.Process.Idempotent.{Reach, here, call}
use parking_system.Gate.Process.Recorded.{
  Remembers, StandsBehind, Remembers-same, Remembers-answered, known-IsRecorded, run-IsRecorded,
}

-- A call that is answered, on whatever database it decided, forgets no event and no gate.
process-Remembers :
    (cfg : Config) (seen db db' : Db) (r : Request) {a : Response}
    → process_plate_event cfg seen db r ≡ answered a db'
    → Remembers db db'
unfolding process_plate_event
process-Remembers cfg seen db db' r {a} h = at_gate (first (has_code r.gate_code) seen.gates) h
  where
    at_event :
        (gate : Gate) (o : Option AccessEvent)
        → elim o [
          | some e ↦ answered (duplicate_response e []) db
          | none ↦ run_event cfg seen db gate r
        ]
          ≡ answered a db'
        → Remembers db db'
    at_event gate none e = (run-IsRecorded gate r a db db' cfg seen e).keeps
    at_event gate (some event) e = Remembers-answered e

    at_gate :
        (o : Option Gate)
        → elim o [
          | none ↦ gate_not_found
          | some gate ↦ elim (find_event seen (event_key gate r)) [
            | some e ↦ answered (duplicate_response e []) db
            | none ↦ run_event cfg seen db gate r
          ]
        ]
          ≡ answered a db'
        → Remembers db db'
    at_gate none e = cc
    at_gate (some gate) e = at_event gate (find_event seen (event_key gate r)) e

Reach-Remembers : (cfg : Config) (start : Db) {db : Db} → Reach cfg start db → Remembers start db
Reach-Remembers cfg start here = Remembers-same start
Reach-Remembers cfg start (call {now} {db'} db r resp reached h) =
    let earlier = Reach-Remembers cfg start reached in
    let step = process-Remembers cfg db now db' r h in
    record {
      gates = step.gates ∙ earlier.gates;
      found = λ k e known. step.found k e (earlier.found k e known);
    }

-- A call that is no trial leaves the event that stands behind its answer.
process-StandsBehind :
    (cfg : Config) (db db' : Db) (r : Request) (gate : Gate) (a : Response)
    → first (has_code r.gate_code) db.gates ≡ some gate
    → r.dry_run ≡ false
    → process_plate_event cfg db db r ≡ answered a db'
    → StandsBehind gate r a db' ⊎ (a ≡ session_conflict)
unfolding process_plate_event
process-StandsBehind cfg db db' r gate a found wet h =
    by_key (find_event db (event_key gate r)) refl (rw (process_plate_event, found) at h)
  where
    by_key :
        (o : Option AccessEvent)
        → find_event db (event_key gate r) ≡ o
        → elim o [
          | some e ↦ answered (duplicate_response e []) db
          | none ↦ run_event cfg db db gate r
        ]
          ≡ answered a db'
        → StandsBehind gate r a db' ⊎ (a ≡ session_conflict)
    by_key (some e) known k = (known-IsRecorded gate r a db db' e [] known k).stored wet
    by_key none known k = (run-IsRecorded gate r a db db' cfg db k).stored wet

-- The answer says of a call what another answer said, and that it is a duplicate.
pub record IsRepeated (a b : Response) : Type 0 where
  pub event : b.access_event_id ≡ a.access_event_id
  pub decision : b.decision ≡ a.decision
  pub reason : b.decision_reason ≡ a.decision_reason
  pub duplicate : b.duplicate ≡ true

repeat_behind :
    (cfg : Config) (gate : Gate) (r s : Request) (a : Response) (db now : Db)
    → first (has_code s.gate_code) db.gates ≡ some gate
    → event_key gate s ≡ event_key gate r
    → StandsBehind gate r a db
    → (b : Response) × (process_plate_event cfg db now s ≡ answered b now) × IsRepeated a b
unfolding process_plate_event duplicate_response
repeat_behind cfg gate r s a db now found same behind = (
  duplicate_response behind.event [],
  rw (process_plate_event, found, same, behind.found) refl,
  record {
    event = behind.id;
    decision = behind.decision;
    reason = behind.reason;
    duplicate = refl;
  },
)

-- An event that was answered, in a call that was no trial, is answered as a duplicate whenever it is
-- sent again to its gate under its key: with the same event, decision and reason, and nothing is
-- changed. In between any calls may have been answered, however stale the databases are that they
-- decided on, and the repeated call may differ in everything but the gate and the key; only the answer
-- to an entry that met an open session is not kept.
pub answered_once :
    (cfg : Config) (db db' later now : Db) (r s : Request) (gate : Gate) {a : Response}
    → first (has_code r.gate_code) db.gates ≡ some gate
    → r.dry_run ≡ false
    → process_plate_event cfg db db r ≡ answered a db'
    → Reach cfg db' later
    → s.gate_code ≡ r.gate_code
    → event_key gate s ≡ event_key gate r
    → (a ≡ session_conflict)
      ⊎ ((b : Response) × (process_plate_event cfg later now s ≡ answered b now) × IsRepeated a b)
answered_once cfg db db' later now r s gate {a} found wet h reached gates keys =
    let first_step = process-Remembers cfg db db db' r h in
    let kept = Reach-Remembers cfg db' reached in
    elim (process-StandsBehind cfg db db' r gate a found wet h) [
      | inr met ↦ inl met
      | inl behind ↦ inr (
          repeat_behind cfg gate r s a later now (rw (gates, kept.gates, first_step.gates) found)
            keys
            (record {
              event = behind.event;
              found = kept.found (event_key gate r) behind.event behind.found;
              id = behind.id;
              decision = behind.decision;
              reason = behind.reason;
            }))
    ]
