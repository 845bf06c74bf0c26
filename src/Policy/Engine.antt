-- ===== src/Policy/Engine.antt =====
-- packages/policy/src/policy-engine.ts: the verdict on an intercepted action.
pub mod Selection
pub mod Reached
pub mod Laws
pub mod Modes
use liminal_engine.Prelude.{
  ℕ, ◌+◌, compare, Ordering, String, template, ◌==◌, Bool, true, not, Option, none, some, List, [],
  ◌∷◌, filter, head?, Result, ok, err, ◌>>=◌, traverse, if◌then◌else◌,
}
use liminal_engine.Prelude.Sorting.{orelse, sort}
use liminal_engine.Contracts.Action.{InterceptedAction}
use liminal_engine.Contracts.PolicyRule.{Verdict, Condition, is_active, ActionPolicyRule}
use liminal_engine.Contracts.Zod.{Zod}
use liminal_engine.Contracts.Parsing.{parse_action, parse_rule}
use liminal_engine.Policy.Wildcard.{wildcard_match}
use liminal_engine.Policy.Scope.{evaluate_scope}
use liminal_engine.Policy.Conditions.{condition_matches}
use liminal_engine.Policy.Decision.{
  PolicyMode, DecisionSource, DecideDeps, PolicyDecision, bare_decision,
}

pub record Candidate : Type 0 where
  pub rule : ActionPolicyRule
  pub specificity : ℕ
  pub verdict_rank : ℕ

abbrev pub verdict_rank : Verdict → ℕ
verdict_rank Verdict.deny = 3
verdict_rank Verdict.ask = 2
verdict_rank Verdict.allow = 1

-- What a tool or action name of a scope adds: nothing for a star, `null` where it differs.
abbrev pub name_specificity : String → String → ℕ → Option ℕ
name_specificity want given weight =
    if want == "*" then some 0 else if want == given then some weight else none

abbrev pub target_specificity : Option String → Option String → Option ℕ
target_specificity none target = some 0
target_specificity (some pattern) none = none
target_specificity (some pattern) (some target) =
    if wildcard_match pattern target then some 4 else none

abbrev pub condition_specificity : InterceptedAction → Option Condition → Option ℕ
condition_specificity action none = some 0
condition_specificity action (some c) = if condition_matches action c then some 8 else none

abbrev plus? : Option ℕ → Option ℕ → Option ℕ
plus? none n = none
plus? (some m) none = none
plus? (some m) (some n) = some (m + n)

unfoldable pub match_specificity : InterceptedAction → ActionPolicyRule → Option ℕ
match_specificity action rule =
    plus?
      (plus?
        (plus? (name_specificity rule.scope.tool action.tool 1)
          (name_specificity rule.scope.action action.action 2))
        (target_specificity rule.scope.target_pattern action.target))
      (condition_specificity action rule.scope.condition)

-- `map` to candidates, then `filter` by `!== null`.
abbrev candidate_of : ActionPolicyRule → ℕ → Candidate
candidate_of rule specificity = record {
  rule = rule;
  specificity = specificity;
  verdict_rank = verdict_rank rule.effect.verdict;
}

abbrev add_candidate : ActionPolicyRule → Option ℕ → List Candidate → List Candidate
add_candidate rule none rest = rest
add_candidate rule (some n) rest = candidate_of rule n ∷ rest

abbrev pub candidates : InterceptedAction → List ActionPolicyRule → List Candidate
candidates action [] = []
candidates action (rule ∷ rules) =
    add_candidate rule (match_specificity action rule) (candidates action rules)

module _ (locale_compare : String → String → Ordering) where
  -- The comparator of `candidates.sort`; `locale_compare` is `String.prototype.localeCompare`.
  unfoldable pub compare_candidates : Candidate → Candidate → Ordering
  compare_candidates a b = orelse (compare b.specificity a.specificity) (
      orelse (compare b.verdict_rank a.verdict_rank) (
        orelse (compare b.rule.version a.rule.version) (
          orelse (locale_compare b.rule.created_at a.rule.created_at)
            (locale_compare a.rule.id b.rule.id))))

  unfoldable pub best_matching_rule : InterceptedAction → List ActionPolicyRule → Option Candidate
  best_matching_rule action rules =
      head? (sort compare_candidates (candidates action (filter (λ r. is_active r.status) rules)))

unfoldable pub decision_from_rule : ActionPolicyRule → PolicyMode → PolicyDecision
decision_from_rule rule PolicyMode.shadow =
    record (bare_decision Verdict.allow [] [] DecisionSource.policy) {
      source_rule_id = some rule.id;
      shadow_verdict = some rule.effect.verdict;
      shadow_rule_id = some rule.id;
      shadow_reasons = some rule.effect.reasons;
    }
decision_from_rule rule _ =
    record (bare_decision rule.effect.verdict rule.effect.reasons rule.effect.required_before
      DecisionSource.policy) { source_rule_id = some rule.id }

abbrev pub out_of_scope_decision : String → PolicyDecision
out_of_scope_decision reason = record (bare_decision Verdict.allow [] [] DecisionSource.scope) {
  out_of_scope = some true;
  scope_reason = some reason;
}

abbrev pub unmatched_decision : InterceptedAction → PolicyMode → PolicyDecision
unmatched_decision action PolicyMode.shadow =
    bare_decision Verdict.allow [] [] DecisionSource.default_deny
unmatched_decision action _ =
    bare_decision Verdict.ask
      (template (
          "No active policy rule matched " ∷ action.tool ∷ " " ∷ action.action
          ∷ "; operator approval is required." ∷ [])
        ∷ [])
      ("Record an operator approve/disapprove verdict for this action class." ∷ [])
      DecisionSource.default_deny

abbrev decide_by : InterceptedAction → PolicyMode → Option Candidate → PolicyDecision
decide_by action mode (some candidate) = decision_from_rule candidate.rule mode
decide_by action mode none = unmatched_decision action mode

-- `: ${error.message}`, or nothing for an empty message
abbrev pub error_detail : String → String
error_detail message = if message == "" then "" else template (": " ∷ message ∷ [])

abbrev pub failed_closed : String → PolicyDecision
failed_closed message =
    bare_decision Verdict.deny
      (template ("Policy evaluation failed closed" ∷ error_detail message ∷ "." ∷ []) ∷ [])
      ("Restore policy evaluation before running consequential actions." ∷ [])
      DecisionSource.default_deny

module _ (zod : Zod) (locale_compare : String → String → Ordering) where
  unfoldable pub decide :
      InterceptedAction → List ActionPolicyRule → DecideDeps → Result PolicyDecision
  decide raw_action raw_rules deps = do
    action ← parse_action zod raw_action
    let evaluation = evaluate_scope action deps.scope
    if not evaluation.in_scope then ok (out_of_scope_decision evaluation.reason) else do
      rules ← traverse (parse_rule zod) raw_rules
      ok (decide_by action deps.mode (best_matching_rule locale_compare action rules))

  abbrev caught : Result PolicyDecision → PolicyDecision
  caught (ok decision) = decision
  caught (err message) = failed_closed message

  -- The store's `activeRules()` may throw; what is thrown is caught here.
  unfoldable pub decide_from_store :
      InterceptedAction → Result (List ActionPolicyRule) → DecideDeps → PolicyDecision
  decide_from_store action active_rules deps =
      caught (do rules ← active_rules; decide action rules deps)
