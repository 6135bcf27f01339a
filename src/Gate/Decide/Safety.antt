-- ===== src/Gate/Decide/Safety.antt =====
-- When the barrier may open.
use parking_system.Common.{
  ◌≡◌, ◌≢◌, ◌⊎◌, refl, true, false, Option, none, some, List, arith, is_some, map,
}
use parking_system.Python.{Text}
use parking_system.Model.{Decision, Direction, Gate, Vehicle, AccessPermit}
use parking_system.Store.{Db, Warning}
use parking_system.Envelope.{ReviewStatus}
use parking_system.Vehicles.{PermitReason, has_active_restriction, find_active_permit}
use parking_system.Rules.{Overrides, soften_protected}
use parking_system.Rules.Facts.{build_context}
use parking_system.Rules.Safety.{
  is_offline, final_decision, online, rules_online, rules_keep_denial,
}
use parking_system.Gate.Request.{Config, Request, barrier_action_for, keep_closed}
use parking_system.Gate.Decide.{
  apply_writes, Verdict, Reading, decide, decide_ruled, decide_base, decide_vehicle,
  decide_direction, decide_exit, decide_entry, decide_found, decide_permitted, close_exit,
  with_review, with_overrides, no_permit,
}

permitted_online :
    (cfg : Config) (db : Db) (plate : Text) (p : AccessPermit) (ws : List Warning)
    → is_offline (decide_permitted cfg db plate p ws).decision ≡ false
unfolding decide_permitted
permitted_online cfg db plate p ws = ground arith

no_permit_online : (reason : PermitReason) → is_offline (no_permit reason).0 ≡ false
no_permit_online reason = ground arith

found_online :
    (cfg : Config) (db : Db) (plate : Text) (p : Option AccessPermit) (reason : PermitReason)
    (ws : List Warning)
    → is_offline (decide_found cfg db plate p reason ws).decision ≡ false
unfolding decide_found
found_online cfg db plate none reason ws = no_permit_online reason
found_online cfg db plate (some p) reason ws = permitted_online cfg db plate p ws

entry_online :
    (cfg : Config) (db : Db) (gate : Gate) (r : Request) (plate : Text) (ws : List Warning)
    → is_offline (decide_entry cfg db gate r plate ws).decision ≡ false
unfolding decide_entry
entry_online cfg db gate r plate ws =
    let (permit, reason) = find_active_permit cfg.py db.permits plate (some gate.id) r.now in
    found_online cfg db plate permit reason ws

exit_online :
    (cfg : Config) (db : Db) (r : Request) (plate : Text) (ws : List Warning)
    → is_offline (decide_exit cfg db r plate ws).decision ≡ false
unfolding decide_exit close_exit
exit_online cfg db r plate ws = ground arith

direction_online :
    (d : Direction) (cfg : Config) (db : Db) (gate : Gate) (r : Request) (plate : Text)
    (ws : List Warning)
    → is_offline (decide_direction d cfg db gate r plate ws).decision ≡ false
unfolding decide_direction
direction_online Direction.outward cfg db gate r plate ws = exit_online cfg db r plate ws
direction_online Direction.inward cfg db gate r plate ws = entry_online cfg db gate r plate ws

base_online :
    (cfg : Config) (db : Db) (gate : Gate) (r : Request) (n : Option Text) (v : Option Vehicle)
    (ws : List Warning)
    → is_offline (decide_base cfg db gate r n v ws).decision ≡ false
unfolding decide_base decide_vehicle
base_online cfg db gate r none v ws = refl
base_online cfg db gate r (some plate) none ws = refl
base_online cfg db gate r (some plate) (some v) ws =
    ground (arith, direction_online r.direction cfg db gate r plate ws)

overrides_online :
    (o : Overrides) (v : Verdict)
    → online o.decision ≡ true
    → is_offline v.decision ≡ false
    → is_offline (with_overrides o v).decision ≡ false
unfolding with_overrides
overrides_online o v h k = ground arith

pub ruled_online :
    (cfg : Config) (db : Db) (gate : Gate) (r : Request) (x : Reading)
    → is_offline (decide_ruled cfg db gate r x).decision ≡ false
unfolding decide_ruled
ruled_online cfg db gate r x =
    let v =
      decide_base cfg db gate r x.normalized x.vehicle
        (map Warning.envelope x.capture.violations) in
    overrides_online _ v
      (rules_online v.decision v.reason r.direction
        (build_context cfg.env (apply_writes v.writes db) gate x.normalized x.vehicle
          (is_some v.permit) r.driver_request r.now_rules)
        r.now_rules cfg.rules)
      (base_online cfg db gate r x.normalized x.vehicle (map Warning.envelope x.capture.violations))

closed_of :
    (status : ReviewStatus) (v : Verdict)
    → status ≡ ReviewStatus.needs_review
    → is_offline v.decision ≡ false
    → barrier_action_for (with_review status v).decision ≡ keep_closed
unfolding with_review barrier_action_for
closed_of status v h k = ground arith

-- A reading that needs a human keeps the barrier closed: whatever the permits, the sessions and the
-- rules of the administrators are.
pub review_keeps_closed :
    (cfg : Config) (db : Db) (gate : Gate) (r : Request) (x : Reading)
    → x.review_status ≡ ReviewStatus.needs_review
    → barrier_action_for (decide cfg db gate r x).decision ≡ keep_closed
unfolding decide
review_keeps_closed cfg db gate r x h =
    closed_of x.review_status (decide_ruled cfg db gate r x) h (ruled_online cfg db gate r x)

restricted_base :
    (cfg : Config) (db : Db) (gate : Gate) (r : Request) (plate : Text) (v : Vehicle)
    (ws : List Warning)
    → (v.is_active ≡ false) ⊎ (has_active_restriction db.restrictions plate r.now ≢ none)
    → ((decide_base cfg db gate r (some plate) (some v) ws).decision ≡ Decision.deny)
      × (soften_protected (decide_base cfg db gate r (some plate) (some v) ws).reason ≡ true)
unfolding decide_base decide_vehicle
restricted_base cfg db gate r plate v ws h = ground arith

denied_of :
    (status : ReviewStatus) (o : Overrides) (v : Verdict)
    → final_decision v.decision o ≡ Decision.deny
    → (with_review status (with_overrides o v)).decision ≡ Decision.deny
unfolding with_review with_overrides
denied_of status o v h = ground arith

-- A registered plate whose vehicle is inactive, or that is under a restriction in force, is denied:
-- no permit, no open session and no rule changes that.
pub restricted_is_denied :
    (cfg : Config) (db : Db) (gate : Gate) (r : Request) (x : Reading) (plate : Text) (v : Vehicle)
    → x.normalized ≡ some plate
    → x.vehicle ≡ some v
    → (v.is_active ≡ false) ⊎ (has_active_restriction db.restrictions plate r.now ≢ none)
    → (decide cfg db gate r x).decision ≡ Decision.deny
unfolding decide decide_ruled
restricted_is_denied cfg db gate r x plate v hn hv h =
    let base =
      decide_base cfg db gate r x.normalized x.vehicle
        (map Warning.envelope x.capture.violations) in
    let denied =
      restricted_base cfg db gate r plate v (map Warning.envelope x.capture.violations) h in
    denied_of x.review_status _ base (
      rules_keep_denial base.decision base.reason r.direction
        (build_context cfg.env (apply_writes base.writes db) gate x.normalized x.vehicle
          (is_some base.permit) r.driver_request r.now_rules)
        r.now_rules cfg.rules (rw (hn, hv) denied.0) (rw (hn, hv) denied.1))
