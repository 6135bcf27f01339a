-- ===== src/Gate/Decide/Admission.antt =====
-- What a plain ALLOW at an entry means.
use parking_system.Common.{
  ℕ, ◌≡◌, refl, Bool, true, false, not, Option, none, some, List, [], ◌∷◌, arith, inl, inr,
  Bool-cases, is_some, first, map,
}
use parking_system.Python.{Text}
use parking_system.Model.{Decision, Direction, Gate, Vehicle, AccessPermit}
use parking_system.Store.{Db, Reason, Warning}
use parking_system.Vehicles.{find_active_permit, has_active_restriction, PermitReason}
use parking_system.Capacity.{check_yard_capacity}
use parking_system.Envelope.{ReviewStatus}
use parking_system.Rules.{
  Context, Action, Overrides, Rule, no_overrides, run_action, run_actions, first_match, rules_for,
  rule_matches, apply_rules_for_event,
}
use parking_system.Rules.Facts.{open_for, build_context}
use parking_system.Gate.Request.{Config, Request}
use parking_system.Gate.Decide.{
  apply_writes, Verdict, Reading, decide, decide_ruled, decide_base, decide_vehicle,
  decide_direction, decide_entry, decide_found, decide_permitted, with_review, with_overrides,
  needs_human,
}

-- No rule decides a plain ALLOW.
abbrev pub no_allow : Option Decision → Bool
no_allow (some Decision.allow) = false
no_allow _ = true

module _ (decision : Decision) (reason : Reason) where
  action_no_allow :
      (act : Action) (o : Overrides)
      → no_allow o.decision ≡ true
      → no_allow (run_action decision reason act o).decision ≡ true
  unfolding run_action
  action_no_allow act o h = ground arith

  actions_no_allow :
      (acts : List Action) (o : Overrides)
      → no_allow o.decision ≡ true
      → no_allow (run_actions decision reason acts o).decision ≡ true
  unfolding run_actions
  actions_no_allow [] o h = h
  actions_no_allow (act ∷ acts) o h =
      actions_no_allow acts (run_action decision reason act o) (action_no_allow act o h)

  match_no_allow :
      (ctx : Context) (now : ℕ) (rules : List Rule)
      → no_allow (first_match ctx now decision reason rules).decision ≡ true
  unfolding first_match
  match_no_allow ctx now [] = refl
  match_no_allow ctx now (r ∷ rules) = elim (Bool-cases (rule_matches ctx now r)) [
    | inl hit ↦ rw hit (actions_no_allow r.actions no_overrides refl)
    | inr miss ↦ rw miss (match_no_allow ctx now rules)
  ]

  rules_no_allow :
      (direction : Direction) (ctx : Context) (now : ℕ) (rules : List Rule)
      → no_allow (apply_rules_for_event direction ctx now decision reason rules).decision ≡ true
  unfolding apply_rules_for_event
  rules_no_allow direction ctx now rules = match_no_allow ctx now (rules_for direction rules)

-- The conditions of an admission.
pub record IsAdmitted (cfg : Config) (db : Db) (gate : Gate) (r : Request) (plate : Text)
    : Type 0 where
  pub permit : AccessPermit
  pub has_permit : (find_active_permit cfg.py db.permits plate (some gate.id) r.now).0 ≡ some permit
  pub not_restricted : is_some (has_active_restriction db.restrictions plate r.now) ≡ false
  pub not_inside : is_some (first (open_for plate) db.sessions) ≡ false
  pub has_room : (check_yard_capacity cfg.env db.app_settings db.occupancies).0 ≡ true

permitted_allow :
    (cfg : Config) (db : Db) (plate : Text) (p : AccessPermit) (ws : List Warning)
    → (decide_permitted cfg db plate p ws).decision ≡ Decision.allow
    → (is_some (first (open_for plate) db.sessions) ≡ false)
      × ((check_yard_capacity cfg.env db.app_settings db.occupancies).0 ≡ true)
unfolding decide_permitted
permitted_allow cfg db plate p ws h = ground arith

found_allow :
    (cfg : Config) (db : Db) (plate : Text) (o : Option AccessPermit) (reason : PermitReason)
    (ws : List Warning)
    → (decide_found cfg db plate o reason ws).decision ≡ Decision.allow
    → (p : AccessPermit) × (o ≡ some p)
      × (is_some (first (open_for plate) db.sessions) ≡ false)
      × ((check_yard_capacity cfg.env db.app_settings db.occupancies).0 ≡ true)
unfolding decide_found
found_allow cfg db plate none reason ws h = ground arith
found_allow cfg db plate (some p) reason ws h =
    let (outside, room) = permitted_allow cfg db plate p ws h in (p, refl, outside, room)

vehicle_allow :
    (cfg : Config) (db : Db) (gate : Gate) (r : Request) (plate : Text) (v : Vehicle)
    (ws : List Warning)
    → r.direction ≡ Direction.inward
    → (decide_vehicle cfg db gate r plate v ws).decision ≡ Decision.allow
    → (v.is_active ≡ true) × IsAdmitted cfg db gate r plate
unfolding decide_vehicle decide_direction decide_entry
vehicle_allow cfg db gate r plate v ws inward h = elim (Bool-cases (not v.is_active)) [
  | inl retired ↦ ground arith
  | inr active ↦ elim (Bool-cases (is_some (has_active_restriction db.restrictions plate r.now))) [
    | inl barred ↦ cc (simp (active, barred) at h)
    | inr free ↦
        let found =
          found_allow cfg db plate
            (find_active_permit cfg.py db.permits plate (some gate.id) r.now).0
            (find_active_permit cfg.py db.permits plate (some gate.id) r.now).1 ws
            (simp (active, free, inward) at h) in
        (
          ground arith,
          record {
            permit = found.0;
            has_permit = found.1;
            not_restricted = free;
            not_inside = found.2;
            has_room = found.3;
          },
        )
  ]
]

review_allow :
    (s : ReviewStatus) (v : Verdict)
    → (with_review s v).decision ≡ Decision.allow
    → (needs_human s ≡ false) × (v.decision ≡ Decision.allow)
unfolding with_review
review_allow s v h = ground arith

overrides_allow :
    (o : Overrides) (v : Verdict)
    → no_allow o.decision ≡ true
    → (with_overrides o v).decision ≡ Decision.allow
    → v.decision ≡ Decision.allow
unfolding with_overrides
overrides_allow o v k h = ground arith

base_allow :
    (cfg : Config) (db : Db) (gate : Gate) (r : Request) (n : Option Text) (v : Option Vehicle)
    (ws : List Warning)
    → r.direction ≡ Direction.inward
    → (decide_base cfg db gate r n v ws).decision ≡ Decision.allow
    → (plate : Text) × (w : Vehicle) × (n ≡ some plate)
      × (v ≡ some w)
      × (w.is_active ≡ true)
      × IsAdmitted cfg db gate r plate
unfolding decide_base
base_allow cfg db gate r none v ws inward h = ground arith
base_allow cfg db gate r (some plate) none ws inward h = ground arith
base_allow cfg db gate r (some plate) (some w) ws inward h =
    let admitted = vehicle_allow cfg db gate r plate w ws inward h in
    (plate, w, refl, refl, admitted.0, admitted.1)

-- An entry is decided ALLOW only for a readable plate of a registered and active vehicle that no
-- restriction in force bars, with a permit that lets it in at this gate and time, with no session of
-- its own open, while the yard has room, and from a reading that needs no review: whatever the rules
-- of the administrators are.
pub allow-IsAdmitted :
    (cfg : Config) (db : Db) (gate : Gate) (r : Request) (x : Reading)
    → r.direction ≡ Direction.inward
    → (decide cfg db gate r x).decision ≡ Decision.allow
    → (needs_human x.review_status ≡ false)
      × ((plate : Text) × (w : Vehicle) × (x.normalized ≡ some plate)
          × (x.vehicle ≡ some w)
          × (w.is_active ≡ true)
          × IsAdmitted cfg db gate r plate)
unfolding decide decide_ruled
allow-IsAdmitted cfg db gate r x inward h =
    let base =
      decide_base cfg db gate r x.normalized x.vehicle
        (map Warning.envelope x.capture.violations) in
    let (clear, ruled) = review_allow x.review_status (decide_ruled cfg db gate r x) h in
    (
      clear,
      base_allow cfg db gate r x.normalized x.vehicle (map Warning.envelope x.capture.violations)
          inward
          (overrides_allow
            (apply_rules_for_event r.direction
              (build_context cfg.env (apply_writes base.writes db) gate x.normalized x.vehicle
                (is_some base.permit) r.driver_request r.now_rules)
              r.now_rules base.decision base.reason cfg.rules)
            base
            (rules_no_allow base.decision base.reason r.direction
              (build_context cfg.env (apply_writes base.writes db) gate x.normalized x.vehicle
                (is_some base.permit) r.driver_request r.now_rules)
              r.now_rules cfg.rules)
            ruled),
    )
