-- ===== src/Policy/Decision.antt =====
-- packages/policy/src/policy-engine.ts: what the engine is told and what it answers.
use liminal_engine.Prelude.{String, Bool, true, false, Option, none, List}
use liminal_engine.Contracts.PolicyRule.{Verdict, is_allow}
use liminal_engine.Policy.Scope.{ProxyScope}

pub data PolicyMode : Type 0 where
  shadow intercept learned : PolicyMode

abbrev pub is_shadow : PolicyMode → Bool
is_shadow PolicyMode.shadow = true
is_shadow _ = false

pub data DecisionSource : Type 0 where
  operator policy scope default_deny : DecisionSource

pub record DecideDeps : Type 0 where
  pub mode : PolicyMode
  pub scope : Option ProxyScope

pub record PolicyDecision : Type 0 where
  pub verdict : Verdict
  pub allowed : Bool
  pub reasons : List String
  pub required_before_send : List String
  pub source : DecisionSource
  pub source_rule_id : Option String
  pub out_of_scope : Option Bool
  pub scope_reason : Option String
  pub shadow_verdict : Option Verdict
  pub shadow_rule_id : Option String
  pub shadow_reasons : Option (List String)

-- A decision with the optional fields left out.
abbrev pub bare_decision : Verdict → List String → List String → DecisionSource → PolicyDecision
bare_decision verdict reasons required source = record {
  verdict = verdict;
  allowed = is_allow verdict;
  reasons = reasons;
  required_before_send = required;
  source = source;
  source_rule_id = none;
  out_of_scope = none;
  scope_reason = none;
  shadow_verdict = none;
  shadow_rule_id = none;
  shadow_reasons = none;
}
