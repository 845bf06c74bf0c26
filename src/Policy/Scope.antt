-- ===== src/Policy/Scope.antt =====
-- packages/policy/src/scope.ts: which actions the proxy governs.
pub mod Laws
use liminal_engine.Prelude.{
  String, template, ◌==◌, Bool, true, false, not, ◌&&◌, ◌||◌, Option, none, some, or_else, List, [],
  ◌∷◌, find, if◌then◌else◌,
}
use liminal_engine.Contracts.Action.{InterceptedAction}
use liminal_engine.Policy.Wildcard.{wildcard_match}

pub record ScopeRule : Type 0 where
  pub id : String
  pub tool : Option String
  pub action : Option String
  pub target_pattern : Option String

pub record ProxyScope : Type 0 where
  pub include : List ScopeRule
  pub exclude : Option (List ScopeRule)

pub record ScopeEvaluation : Type 0 where
  pub in_scope : Bool
  pub matched_include_id : Option String
  pub matched_exclude_id : Option String
  pub reason : String

-- `want === undefined || want === "*" || want === given`
abbrev pub names : Option String → String → Bool
names none given = true
names (some want) given = want == "*" || want == given

abbrev pub target_fits : Option String → Option String → Bool
target_fits none target = true
target_fits (some pattern) none = false
target_fits (some pattern) (some target) = wildcard_match pattern target

unfoldable pub scope_rule_matches : InterceptedAction → ScopeRule → Bool
scope_rule_matches action rule =
    if not (names rule.tool action.tool)
    then false
    else if not (names rule.action action.action)
    then false
    else target_fits rule.target_pattern action.target

abbrev excluded_by : ScopeRule → ScopeEvaluation
excluded_by rule = record {
  in_scope = false;
  matched_include_id = none;
  matched_exclude_id = some rule.id;
  reason = template ("Action matched excluded scope " ∷ rule.id ∷ "." ∷ []);
}

abbrev included_by : ScopeRule → ScopeEvaluation
included_by rule = record {
  in_scope = true;
  matched_include_id = some rule.id;
  matched_exclude_id = none;
  reason = template ("Action matched included scope " ∷ rule.id ∷ "." ∷ []);
}

abbrev plain : Bool → String → ScopeEvaluation
plain inside reason = record {
  in_scope = inside;
  matched_include_id = none;
  matched_exclude_id = none;
  reason = reason;
}

abbrev evaluate_include : Option ScopeRule → ScopeEvaluation
evaluate_include none = plain false "Action did not match any included proxy scope."
evaluate_include (some rule) = included_by rule

abbrev evaluate_includes : InterceptedAction → List ScopeRule → ScopeEvaluation
evaluate_includes action [] = plain false "Proxy scope has no include rules."
evaluate_includes action (r ∷ rs) = evaluate_include (find (scope_rule_matches action) (r ∷ rs))

abbrev evaluate_exclude : InterceptedAction → ProxyScope → Option ScopeRule → ScopeEvaluation
evaluate_exclude action scope (some rule) = excluded_by rule
evaluate_exclude action scope none = evaluate_includes action scope.include

unfoldable pub evaluate_scope : InterceptedAction → Option ProxyScope → ScopeEvaluation
evaluate_scope action none = plain true "No proxy scope configured; action is in scope by default."
evaluate_scope action (some scope) =
    evaluate_exclude action scope (find (scope_rule_matches action) (or_else scope.exclude []))
