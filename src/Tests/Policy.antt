-- ===== src/Tests/Policy.antt =====
-- packages/policy on the actions and rules of the fixtures.
use liminal_engine.Prelude.{
  ℕ, ◌<◌, codes, ◌≡◌, refl, ◌↔◌, inl, true, false, none, some, is_some, List, [], ◌∷◌, All, Member,
  ok, if◌then◌else◌,
}
use liminal_engine.Contracts.PolicyRule.{Verdict, ActionPolicyRule}
use liminal_engine.Contracts.Parsing.{
  is_valid_action, is_valid_rule, is_valid_scope, is_valid_effect, is_valid_condition, parse_action,
  parse_rule,
}
use liminal_engine.Contracts.Action.{InterceptedAction}
use liminal_engine.Contracts.Value.{read_path}
use liminal_engine.Policy.Conditions.{condition_matches, read_condition_field}
use liminal_engine.Policy.Wildcard.{
  wildcard_match, match_codes, match_star, Matches, wildcard_match_iff,
}
use liminal_engine.Policy.Scope.{ProxyScope, evaluate_scope}
use liminal_engine.Policy.Scope.Laws.{IsGoverned, evaluate_scope_iff}
use liminal_engine.Policy.Decision.{PolicyMode, DecideDeps, PolicyDecision}
use liminal_engine.Policy.Engine.{
  Candidate, match_specificity, compare_candidates, decision_from_rule, best_matching_rule, decide,
  decide_from_store,
}
use liminal_engine.Policy.Engine.Selection.{Governs, IsOutranked, best_matching_rule-IsOutranked}
use liminal_engine.Policy.Engine.Laws.{IsJustified, decide_from_store-IsJustified, deny_wins}
use liminal_engine.Policy.Engine.Modes.{in_mode, fits, shadow_mirrors}
use liminal_engine.Tests.Fixtures.{
  zod, collate, collate-IsConsistent, merge, deny_merge, allow_reviewed, learned_rules,
}

abbrev deps : DecideDeps
deps = in_mode PolicyMode.intercept none

abbrev decided : PolicyMode → PolicyDecision
decided mode = decide_from_store zod collate merge (ok learned_rules) (in_mode mode none)

decides :
    (mode : PolicyMode)
    → decide zod collate merge learned_rules (in_mode mode none) ≡ ok (decided mode)
unfolding decide_from_store decide parse_action parse_rule is_valid_action is_valid_rule
    is_valid_scope is_valid_effect is_valid_condition evaluate_scope best_matching_rule
    compare_candidates match_specificity condition_matches read_condition_field read_path
    decision_from_rule wildcard_match match_codes match_star
decides PolicyMode.shadow = refl
decides PolicyMode.intercept = refl
decides PolicyMode.learned = refl

runs : (decided PolicyMode.intercept).allowed ≡ true
unfolding decide_from_store decide parse_action parse_rule is_valid_action is_valid_rule
    is_valid_scope is_valid_effect is_valid_condition evaluate_scope best_matching_rule
    compare_candidates match_specificity condition_matches read_condition_field read_path
    decision_from_rule wildcard_match match_codes match_star
runs = refl

decide_from_store-IsJustified_example :
    (rules : List ActionPolicyRule) × (ok learned_rules ≡ ok rules)
    × (is_valid_action zod merge ≡ true)
    × IsJustified zod collate merge rules deps (decided PolicyMode.intercept)
decide_from_store-IsJustified_example =
    decide_from_store-IsJustified zod collate merge (ok learned_rules) deps runs

in_scope : (evaluate_scope merge none).in_scope ≡ true
unfolding evaluate_scope
in_scope = refl

deny_merge-Governs : Governs merge deny_merge 3
unfolding decide_from_store decide parse_action parse_rule is_valid_action is_valid_rule
    is_valid_scope is_valid_effect is_valid_condition evaluate_scope best_matching_rule
    compare_candidates match_specificity condition_matches read_condition_field read_path
    decision_from_rule wildcard_match match_codes match_star
deny_merge-Governs = (refl, refl)

deny_wins_example :
    (winner : ActionPolicyRule) × (m : ℕ) × Member winner learned_rules
    × Governs merge winner m
    × (winner.effect.verdict ≡ Verdict.allow)
    × (3 < m)
    × ((decided PolicyMode.intercept).source_rule_id ≡ some winner.id)
deny_wins_example =
    deny_wins zod collate merge learned_rules deps (decided PolicyMode.intercept) deny_merge 3
      collate-IsConsistent (decides PolicyMode.intercept) runs in_scope refl (inl refl)
      deny_merge-Governs refl

abbrev chosen : Candidate
chosen = record { rule = allow_reviewed; specificity = 15; verdict_rank = 1 }

chooses : best_matching_rule collate merge learned_rules ≡ some chosen
unfolding decide_from_store decide parse_action parse_rule is_valid_action is_valid_rule
    is_valid_scope is_valid_effect is_valid_condition evaluate_scope best_matching_rule
    compare_candidates match_specificity condition_matches read_condition_field read_path
    decision_from_rule wildcard_match match_codes match_star
chooses = refl

best_matching_rule-IsOutranked_example : IsOutranked deny_merge 3 chosen
best_matching_rule-IsOutranked_example =
    best_matching_rule-IsOutranked collate merge learned_rules chosen deny_merge 3
      collate-IsConsistent chooses (inl refl) deny_merge-Governs

shadow_mirrors_example :
    ((decided PolicyMode.shadow).allowed ≡ true)
    × ((decided PolicyMode.shadow).source_rule_id ≡ (decided PolicyMode.intercept).source_rule_id)
    × ((decided PolicyMode.shadow).shadow_verdict ≡ (
        if is_some (decided PolicyMode.intercept).source_rule_id
        then some (decided PolicyMode.intercept).verdict
        else none))
    × (decide zod collate merge learned_rules (in_mode PolicyMode.learned none)
        ≡ ok (decided PolicyMode.intercept))
shadow_mirrors_example =
    shadow_mirrors zod collate merge learned_rules none (decided PolicyMode.shadow)
      (decided PolicyMode.intercept) (decides PolicyMode.shadow) (decides PolicyMode.intercept)

-- A push, which no learned rule is about.
abbrev push : InterceptedAction
push = record merge { action = "push" }

push-fits_none :
    (is_valid_action zod push ≡ true)
    × All (λ r. is_valid_rule zod r ≡ true) learned_rules
    × All (λ r. fits push r ≡ false) learned_rules
unfolding decide_from_store decide parse_action parse_rule is_valid_action is_valid_rule
    is_valid_scope is_valid_effect is_valid_condition evaluate_scope best_matching_rule
    compare_candidates match_specificity condition_matches read_condition_field read_path
    decision_from_rule wildcard_match match_codes match_star
push-fits_none = (refl, (refl, (refl, tt)), (refl, (refl, tt)))

abbrev acme_scope : ProxyScope
acme_scope = record {
  include =
      record { id = "all"; tool = some "*"; action = none; target_pattern = some "acme/*" } ∷ [];
  exclude =
      some (
        record { id = "deploys"; tool = none; action = some "deploy"; target_pattern = none } ∷ []);
}

evaluate_scope_iff_example :
    ((evaluate_scope merge (some acme_scope)).in_scope ≡ true) ↔ IsGoverned merge acme_scope
evaluate_scope_iff_example = evaluate_scope_iff merge acme_scope

wildcard_match_iff_example :
    (wildcard_match "acme/*" "acme/main" ≡ true) ↔ Matches (codes "acme/*") (codes "acme/main")
wildcard_match_iff_example = wildcard_match_iff "acme/*" "acme/main"
