-- ===== src/GateApi/Checks.antt =====
-- `access_check`, the trial of an event, and who is told of a decision.
use parking_system.Common.{
  ◌≡◌, ◌⊎◌, ◌↔◌, refl, sym, ◌∙◌, Bool, true, false, Option, none, some, List, map, [], ◌∷◌, ◌++◌,
  arith, inl, inr, Bool-cases, is_some, first, any, if◌then◌else◌,
}
use parking_system.Python.{Text}
use parking_system.Model.{Gate, Direction, Vehicle}
use parking_system.Store.{Db, AccessEvent, Warning}
use parking_system.Gate.Request.{Config, Request, keep_closed, barrier_action_for, event_key}
use parking_system.Gate.Decide.{
  apply_writes, Reading, Verdict, read_event, decide, decide_ruled, decide_base, decide_vehicle,
  decide_direction, decide_exit, decide_entry, close_exit, with_review, with_overrides,
}
use parking_system.Rules.{apply_rules_for_event}
use parking_system.Rules.Facts.{build_context}
use parking_system.Gate.Commit.{
  Committed, written, conflict, commit, recognition, same_source, find_event,
}
use parking_system.Gate.Process.{
  Response, answered, gate_not_found, duplicate_response, session_conflict, run_event,
  after_conflict, process_plate_event, has_code, verdict_response,
}
use parking_system.GateApi.{
  Detected, detected_request, check_request, access_check, plate_detected, notifies,
}

wet : (e : Detected) → (detected_request e).dry_run ≡ false
unfolding detected_request
wet e = refl

dry : (e : Detected) → (check_request e).dry_run ≡ true
unfolding check_request
dry e = refl

module _ (cfg : Config) (db : Db) (e : Detected) where
  direction_alike :
      (d : Direction) (gate : Gate) (plate : Text) (ws : List Warning)
      → decide_direction d cfg db gate (check_request e) plate ws
        ≡ decide_direction d cfg db gate (detected_request e) plate ws
  unfolding decide_direction decide_exit decide_entry close_exit check_request detected_request
  direction_alike Direction.inward gate plate ws = refl
  direction_alike Direction.outward gate plate ws = refl

  base_alike :
      (gate : Gate) (n : Option Text) (v : Option Vehicle) (ws : List Warning)
      → decide_base cfg db gate (check_request e) n v ws
        ≡ decide_base cfg db gate (detected_request e) n v ws
  unfolding decide_base decide_vehicle check_request detected_request
  base_alike gate none v ws = refl
  base_alike gate (some plate) none ws = refl
  base_alike gate (some plate) (some v) ws = rw (direction_alike e.direction gate plate ws) refl

  ruled_alike :
      (gate : Gate) (x : Reading) (v : Verdict)
      → with_review x.review_status (
          with_overrides
            (apply_rules_for_event
              (check_request e).direction
              (build_context cfg.env
                (apply_writes v.writes db)
                gate
                x.normalized
                x.vehicle
                (is_some v.permit)
                (check_request e).driver_request
                (check_request e).now_rules)
              (check_request e).now_rules
              v.decision
              v.reason
              cfg.rules)
            v)
        ≡ with_review x.review_status (
            with_overrides
              (apply_rules_for_event
                (detected_request e).direction
                (build_context cfg.env
                  (apply_writes v.writes db)
                  gate
                  x.normalized
                  x.vehicle
                  (is_some v.permit)
                  (detected_request e).driver_request
                  (detected_request e).now_rules)
                (detected_request e).now_rules
                v.decision
                v.reason
                cfg.rules)
              v)
  unfolding check_request detected_request
  ruled_alike gate x v = refl

  decide_alike :
      (gate : Gate) (x : Reading)
      → decide cfg db gate (check_request e) x ≡ decide cfg db gate (detected_request e) x
  unfolding decide decide_ruled
  decide_alike gate x =
      rw (base_alike gate x.normalized x.vehicle (map Warning.envelope x.capture.violations)) (
        ruled_alike gate x (
          decide_base cfg db gate (detected_request e) x.normalized x.vehicle
            (map Warning.envelope x.capture.violations)))

  read_alike : read_event cfg db (check_request e) ≡ read_event cfg db (detected_request e)
  unfolding read_event check_request detected_request
  read_alike = refl

  key_alike : (gate : Gate) → event_key gate (check_request e) ≡ event_key gate (detected_request e)
  unfolding event_key check_request detected_request
  key_alike gate = refl

-- Two answers say the same to the gate.
pub record Agrees (a b : Response) : Type 0 where
  pub decision : b.decision ≡ a.decision
  pub decision_reason : b.decision_reason ≡ a.decision_reason
  pub barrier_action : b.barrier_action ≡ a.barrier_action
  pub duplicate : b.duplicate ≡ a.duplicate

pub response_of : {p q : Response} {a b : Db} → answered p a ≡ answered q b → p ≡ q
response_of h = cc

Agrees-duplicate :
    (o : AccessEvent) (a b : Response)
    → duplicate_response o [] ≡ a
    → duplicate_response o [] ≡ b
    → Agrees a b
unfolding duplicate_response
Agrees-duplicate o a b h k = ground arith

verdicts-Agree :
    (db : Db) (gate : Gate) (r t : Request) (x : Reading) (v : Verdict) (a b : Response)
    → verdict_response db gate r x v ≡ a
    → verdict_response db gate t x v ≡ b
    → Agrees a b
unfolding verdict_response
verdicts-Agree db gate r t x v a b h k = ground arith

module _ (cfg : Config) (db db' : Db) (gate : Gate) (r : Request) (b : Response) where
  conflict_answers :
      (x : Reading)
      → find_event db (event_key gate r) ≡ none
      → after_conflict db gate r x ≡ answered b db'
      → b ≡ session_conflict
  unfolding after_conflict
  conflict_answers x fresh h = ground arith

  -- What is answered to an event whose key is not known.
  run_answers :
      r.dry_run ≡ false
      → find_event db (event_key gate r) ≡ none
      → run_event cfg db db gate r ≡ answered b db'
      → (verdict_response db gate r
            (read_event cfg db r)
            (decide cfg db gate r (read_event cfg db r))
          ≡ b)
        ⊎ (b ≡ session_conflict)
  unfolding run_event
  run_answers wet fresh h =
      let x = read_event cfg db r in
      elim (Bool-cases (any (same_source r) db.recognitions)) [
        | inl twice ↦ cc (simp (wet, twice) at h)
        | inr once ↦
            committed x
              (commit gate r x (decide cfg db gate r x)
                (record db { recognitions = db.recognitions ++ recognition gate r x ∷ [] }))
              fresh (simp (wet, once) at h)
      ]
    where
      committed :
          (x : Reading) (c : Committed)
          → find_event db (event_key gate r) ≡ none
          → elim c [
            | written d ↦ answered (verdict_response db gate r x (decide cfg db gate r x)) d
            | conflict ↦ after_conflict db gate r x
          ]
            ≡ answered b db'
          → (verdict_response db gate r x (decide cfg db gate r x) ≡ b) ⊎ (b ≡ session_conflict)
      committed x (written d) fresh k = inl (response_of k)
      committed x conflict fresh k = inr (conflict_answers x fresh k)

if_true {ℓ} : {A : Type ℓ} (b : Bool) (x y : A) → b ≡ true → (if b then x else y) ≡ x
if_true true x y h = refl
if_true false x y h = cc

dry_answers :
    (cfg : Config) (db db' : Db) (gate : Gate) (r : Request) (a : Response)
    → r.dry_run ≡ true
    → run_event cfg db db gate r ≡ answered a db'
    → verdict_response db gate r (read_event cfg db r) (decide cfg db gate r (read_event cfg db r))
      ≡ a
unfolding run_event
dry_answers cfg db db' gate r a trial h = response_of (sym (if_true r.dry_run _ _ trial) ∙ h)

module _ (cfg : Config) (db : Db) (e : Detected) {a b : Response} {db1 db2 : Db} where
  at_gate :
      (gate : Gate) (o : Option AccessEvent)
      → find_event db (event_key gate (detected_request e)) ≡ o
      → elim o [
        | some f ↦ answered (duplicate_response f []) db
        | none ↦ run_event cfg db db gate (check_request e)
      ]
        ≡ answered a db1
      → elim o [
        | some f ↦ answered (duplicate_response f []) db
        | none ↦ run_event cfg db db gate (detected_request e)
      ]
        ≡ answered b db2
      → Agrees a b ⊎ (b ≡ session_conflict)
  at_gate gate (some f) known h k = inl (Agrees-duplicate f a b (response_of h) (response_of k))
  at_gate gate none fresh h k =
      elim (run_answers cfg db db2 gate (detected_request e) b (wet e) fresh k) [
        | inr met ↦ inr met
        | inl real ↦ inl (
            verdicts-Agree db gate (check_request e) (detected_request e)
              (read_event cfg db (detected_request e))
              (decide cfg db gate (detected_request e) (read_event cfg db (detected_request e))) a b
              (trial gate (dry_answers cfg db db1 gate (check_request e) a (dry e) h)) real)
      ]
    where
      trial :
          (gate : Gate)
          → verdict_response db gate
              (check_request e)
              (read_event cfg db (check_request e))
              (decide cfg db gate (check_request e) (read_event cfg db (check_request e)))
            ≡ a
          → verdict_response db gate
              (check_request e)
              (read_event cfg db (detected_request e))
              (decide cfg db gate (detected_request e) (read_event cfg db (detected_request e)))
            ≡ a
      trial gate k =
          rw
            (
              ← decide_alike cfg db e gate (read_event cfg db (detected_request e)),
              ← read_alike cfg db e,
            )
            k

  -- A trial of an event answers what the event itself is then answered, on the same database: the same
  -- decision, reason and barrier action, and a duplicate alike; or the event is an entry that meets an
  -- open session of its plate.
  pub check_predicts :
      access_check cfg db db e ≡ answered a db1
      → plate_detected cfg db db e ≡ answered b db2
      → Agrees a b ⊎ (b ≡ session_conflict)
  unfolding access_check plate_detected process_plate_event check_request detected_request
  check_predicts h k = by_gate (first (has_code e.gate_code) db.gates) h k
    where
      by_gate :
          (o : Option Gate)
          → elim o [
            | none ↦ gate_not_found
            | some gate ↦ elim (find_event db (event_key gate (check_request e))) [
              | some f ↦ answered (duplicate_response f []) db
              | none ↦ run_event cfg db db gate (check_request e)
            ]
          ]
            ≡ answered a db1
          → elim o [
            | none ↦ gate_not_found
            | some gate ↦ elim (find_event db (event_key gate (detected_request e))) [
              | some f ↦ answered (duplicate_response f []) db
              | none ↦ run_event cfg db db gate (detected_request e)
            ]
          ]
            ≡ answered b db2
          → Agrees a b ⊎ (b ≡ session_conflict)
      by_gate none h k = cc
      by_gate (some gate) h k =
          at_gate gate (find_event db (event_key gate (detected_request e))) refl
            (rw (key_alike cfg db e gate) at h) k

-- The operators are told exactly of the decisions that keep the barrier closed, once each.
pub notifies_refusals :
    (a : Response)
    → (notifies a ≡ true) ↔ ((barrier_action_for a.decision ≡ keep_closed) × (a.duplicate ≡ false))
unfolding notifies barrier_action_for
notifies_refusals a = ((λ h. ground arith), (λ h. ground arith))
