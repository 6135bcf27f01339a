-- ===== src/Rules.antt =====
-- backend/app/rules_engine.py: administrators' rules on the gate's decisions. The JSON of a rule is
-- decoded: an unknown field, operation or action is a constructor of its own.
mod Conditions
unfoldable pub use Conditions.{
  field_value, truthy, scalar_eq, text_le, scalar_le, starts_text, within_text, target_has,
  match_op, match_condition,
}
pub use Conditions.*
pub mod Facts
pub mod Safety
use parking_system.Common.{
  ℕ, ◌*◌, Bool, true, false, not, ◌&&◌, ◌||◌, Option, none, some, List, [], ◌∷◌, ◌++◌, map, ltb,
  leb, ◌==◌, if◌then◌else◌, any, all, select, text_eq, or_else,
}
use parking_system.Common.Int.{ℤ, pos, ltb_ℤ}
use parking_system.Python.{Text, codes}
use parking_system.Model.{Decision, Direction}
use parking_system.Store.{Reason, Warning}
use parking_system.Vehicles.{starts_later}

pub data Action : Type 0 where
  show_message : Text → Action
  require_driver_selection notify_field_op issue_receipt request_payment : Action
  refer_to_guard deny allow_with_warning : Option Text → Action
  unknown_action : Text → Action

pub record Overrides : Type 0 where
  pub decision : Option Decision
  pub reason : Option Reason
  pub message : Option Text
  pub require_driver_selection : Bool
  pub notify_field_op : Bool
  pub issue_receipt : Bool
  pub request_payment : Bool
  pub warnings : List Warning

abbrev pub no_overrides : Overrides
no_overrides = record {
  decision = none;
  reason = none;
  message = none;
  require_driver_selection = false;
  notify_field_op = false;
  issue_receipt = false;
  request_payment = false;
  warnings = [];
}

abbrev pub rule_reason : Option Text → Reason → Reason
rule_reason none default = default
rule_reason (some t) default = Reason.custom t

abbrev pub warn_with : Warning → Overrides → Overrides
warn_with w o = record o { warnings = o.warnings ++ w ∷ [] }

abbrev pub decide_with : Decision → Reason → Overrides → Overrides
decide_with d r o = record o { decision = some d; reason = some r }

-- `_apply_action`
unfoldable pub apply_action : Action → Overrides → Overrides
apply_action (show_message t) o = record o { message = some t }
apply_action require_driver_selection o = record o { require_driver_selection = true }
apply_action (refer_to_guard r) o =
    decide_with Decision.require_operator_approval (rule_reason r Reason.rule_refer_guard) o
apply_action (deny r) o = decide_with Decision.deny (rule_reason r Reason.rule_deny) o
apply_action (allow_with_warning r) o =
    decide_with Decision.allow_with_warning (rule_reason r Reason.rule_allow) o
apply_action notify_field_op o = record o { notify_field_op = true }
apply_action issue_receipt o = record o { issue_receipt = true }
apply_action request_payment o = record o { request_payment = true }
apply_action (unknown_action a) o = warn_with (Warning.unknown_action a) o

-- SOFTEN_PROTECTED_REASONS
abbrev pub soften_protected : Reason → Bool
soften_protected Reason.plate_restricted = true
soften_protected Reason.vehicle_inactive = true
soften_protected _ = false

abbrev pub softens : Action → Bool
softens (allow_with_warning _) = true
softens (refer_to_guard _) = true
softens _ = false

abbrev pub is_allow_action : Action → Bool
is_allow_action (allow_with_warning _) = true
is_allow_action _ = false

-- decision in ("DENY", "REQUIRE_OPERATOR_APPROVAL")
abbrev pub is_refusal : Decision → Bool
is_refusal Decision.deny = true
is_refusal Decision.require_operator_approval = true
is_refusal _ = false

-- reason in ("UNKNOWN_PLATE", "NO_ACTIVE_PERMIT")
abbrev pub may_soften : Reason → Bool
may_soften Reason.unknown_plate = true
may_soften Reason.no_active_permit = true
may_soften _ = false

-- One round of the loop over the actions of a rule.
unfoldable pub run_action : Decision → Reason → Action → Overrides → Overrides
unfolding apply_action
run_action decision reason act o =
    if soften_protected reason && softens act
    then warn_with Warning.rule_soften_blocked o
    else if is_allow_action act && (is_refusal decision && not (may_soften reason))
    then record (warn_with Warning.rule_soften_blocked (apply_action act o)) {
      decision = none;
      reason = none;
    }
    else apply_action act o

unfoldable pub run_actions : Decision → Reason → List Action → Overrides → Overrides
run_actions decision reason [] o = o
run_actions decision reason (act ∷ acts) o =
    run_actions decision reason acts (run_action decision reason act o)

pub data Scope : Type 0 where
  any_direction : Scope
  only : Direction → Scope

-- `EntryExitRule`; `is_live` is status = 'ACTIVE' and enabled.
pub record Rule : Type 0 where
  pub id : ℕ
  pub is_live : Bool
  pub scope : Scope
  pub priority : ℕ
  pub match_all : Bool
  pub conditions : List Condition
  pub actions : List Action
  pub effective_from : Option ℕ

abbrev pub same_direction : Direction → Direction → Bool
same_direction Direction.inward Direction.inward = true
same_direction Direction.outward Direction.outward = true
same_direction _ _ = false

abbrev pub in_scope : Scope → Direction → Bool
in_scope any_direction d = true
in_scope (only d') d = same_direction d' d

-- ORDER BY priority ASC, stable.
unfoldable pub insert_rule : Rule → List Rule → List Rule
insert_rule r [] = r ∷ []
insert_rule r (s ∷ rules) =
    let rest = insert_rule r rules in if leb r.priority s.priority then r ∷ s ∷ rules else s ∷ rest

unfoldable pub rules_for : Direction → List Rule → List Rule
unfolding insert_rule
rules_for d [] = []
rules_for d (r ∷ rules) =
    let rest = rules_for d rules in
    if r.is_live && in_scope r.scope d then insert_rule r rest else rest

unfoldable pub rule_matches : Context → ℕ → Rule → Bool
rule_matches ctx now r =
    let results = map (match_condition ctx) r.conditions in
    not (starts_later r.effective_from now)
    && (if r.match_all then all (λ b. b) results else any (λ b. b) results)

-- The loop of `apply_rules_for_event`: the first rule that matches, and no other, is applied.
unfoldable pub first_match : Context → ℕ → Decision → Reason → List Rule → Overrides
first_match ctx now decision reason [] = no_overrides
first_match ctx now decision reason (r ∷ rules) =
    if rule_matches ctx now r
    then run_actions decision reason r.actions no_overrides
    else first_match ctx now decision reason rules

unfoldable pub apply_rules_for_event :
    Direction → Context → ℕ → Decision → Reason → List Rule → Overrides
unfolding rules_for
apply_rules_for_event direction ctx now decision reason rules =
    first_match ctx now decision reason (rules_for direction rules)
