-- ===== src/Rules/Safety.antt =====
-- A rule never turns a refusal into an opening of the barrier.
use parking_system.Common.{
  ℕ, ◌≡◌, refl, inl, inr, Bool, true, false, not, Option, none, some, List, [], ◌∷◌, arith,
  Bool-cases, or_else,
}
use parking_system.Model.{Decision, Direction}
use parking_system.Store.{Reason}
use parking_system.Rules.{
  Context, Action, Overrides, Rule, no_overrides, run_action, run_actions, first_match, rules_for,
  rule_matches, apply_rules_for_event, is_refusal, may_soften, soften_protected,
}

-- The decision after the rules: the override if there is one.
abbrev pub final_decision : Decision → Overrides → Decision
final_decision d o = or_else o.decision d

abbrev pub denies : Option Decision → Bool
denies none = true
denies (some Decision.deny) = true
denies (some _) = false

abbrev pub refuses : Option Decision → Bool
refuses none = true
refuses (some d) = is_refusal d

-- The decisions that a gate takes by itself, while it has no connection.
abbrev pub is_offline : Decision → Bool
is_offline Decision.offline_allow = true
is_offline Decision.offline_require_review = true
is_offline _ = false

abbrev pub online : Option Decision → Bool
online none = true
online (some d) = not (is_offline d)

module _ (decision : Decision) (reason : Reason) where
  action_online :
      (act : Action) (o : Overrides)
      → online o.decision ≡ true
      → online (run_action decision reason act o).decision ≡ true
  unfolding run_action
  action_online act o h = ground arith

  actions_online :
      (acts : List Action) (o : Overrides)
      → online o.decision ≡ true
      → online (run_actions decision reason acts o).decision ≡ true
  unfolding run_actions
  actions_online [] o h = h
  actions_online (act ∷ acts) o h =
      actions_online acts (run_action decision reason act o) (action_online act o h)

  match_online :
      (ctx : Context) (now : ℕ) (rules : List Rule)
      → online (first_match ctx now decision reason rules).decision ≡ true
  unfolding first_match
  match_online ctx now [] = refl
  match_online ctx now (r ∷ rules) = elim (Bool-cases (rule_matches ctx now r)) [
    | inl hit ↦ rw hit (actions_online r.actions no_overrides refl)
    | inr miss ↦ rw miss (match_online ctx now rules)
  ]

  pub rules_online :
      (direction : Direction) (ctx : Context) (now : ℕ) (rules : List Rule)
      → online (apply_rules_for_event direction ctx now decision reason rules).decision ≡ true
  unfolding apply_rules_for_event
  rules_online direction ctx now rules = match_online ctx now (rules_for direction rules)

  action_refuses :
      (act : Action) (o : Overrides)
      → is_refusal decision ≡ true
      → may_soften reason ≡ false
      → refuses o.decision ≡ true
      → refuses (run_action decision reason act o).decision ≡ true
  unfolding run_action
  action_refuses act o hd hr h = ground arith

  action_denies :
      (act : Action) (o : Overrides)
      → soften_protected reason ≡ true
      → denies o.decision ≡ true
      → denies (run_action decision reason act o).decision ≡ true
  unfolding run_action
  action_denies act o hr h = ground arith

  actions_refuse :
      (acts : List Action) (o : Overrides)
      → is_refusal decision ≡ true
      → may_soften reason ≡ false
      → refuses o.decision ≡ true
      → refuses (run_actions decision reason acts o).decision ≡ true
  unfolding run_actions
  actions_refuse [] o hd hr h = h
  actions_refuse (act ∷ acts) o hd hr h =
      actions_refuse acts (run_action decision reason act o) hd hr (action_refuses act o hd hr h)

  actions_deny :
      (acts : List Action) (o : Overrides)
      → soften_protected reason ≡ true
      → denies o.decision ≡ true
      → denies (run_actions decision reason acts o).decision ≡ true
  unfolding run_actions
  actions_deny [] o hr h = h
  actions_deny (act ∷ acts) o hr h =
      actions_deny acts (run_action decision reason act o) hr (action_denies act o hr h)

  match_refuses :
      (ctx : Context) (now : ℕ) (rules : List Rule)
      → is_refusal decision ≡ true
      → may_soften reason ≡ false
      → refuses (first_match ctx now decision reason rules).decision ≡ true
  unfolding first_match
  match_refuses ctx now [] hd hr = refl
  match_refuses ctx now (r ∷ rules) hd hr = elim (Bool-cases (rule_matches ctx now r)) [
    | inl hit ↦ rw hit (actions_refuse r.actions no_overrides hd hr refl)
    | inr miss ↦ rw miss (match_refuses ctx now rules hd hr)
  ]

  match_denies :
      (ctx : Context) (now : ℕ) (rules : List Rule)
      → soften_protected reason ≡ true
      → denies (first_match ctx now decision reason rules).decision ≡ true
  unfolding first_match
  match_denies ctx now [] hr = refl
  match_denies ctx now (r ∷ rules) hr = elim (Bool-cases (rule_matches ctx now r)) [
    | inl hit ↦ rw hit (actions_deny r.actions no_overrides hr refl)
    | inr miss ↦ rw miss (match_denies ctx now rules hr)
  ]

  -- Whatever the rules and their conditions, a decision of DENY or REQUIRE_OPERATOR_APPROVAL stays
  -- one of these two, unless its reason is one of the two that the engine excepts.
  pub rules_keep_refusal :
      (direction : Direction) (ctx : Context) (now : ℕ) (rules : List Rule)
      → is_refusal decision ≡ true
      → may_soften reason ≡ false
      → is_refusal
          (final_decision decision (apply_rules_for_event direction ctx now decision reason rules))
        ≡ true
  unfolding apply_rules_for_event
  rules_keep_refusal direction ctx now rules hd hr =
      ground (arith, match_refuses ctx now (rules_for direction rules) hd hr)

  -- A DENY for a restricted plate or an inactive vehicle stays a DENY under every set of rules.
  pub rules_keep_denial :
      (direction : Direction) (ctx : Context) (now : ℕ) (rules : List Rule)
      → decision ≡ Decision.deny
      → soften_protected reason ≡ true
      → final_decision decision (apply_rules_for_event direction ctx now decision reason rules)
        ≡ Decision.deny
  unfolding apply_rules_for_event
  rules_keep_denial direction ctx now rules hd hr =
      ground (arith, match_denies ctx now (rules_for direction rules) hr)
