-- ===== src/Tests/Gateway.antt =====
-- The gateway at work on the fixtures.
use liminal_engine.Prelude.{◌≡◌, refl, ap, true, none, some, List, [], ◌∷◌, ok}
use liminal_engine.Contracts.Parsing.{
  parse_action, is_valid_action, parse_rule, is_valid_rule, is_valid_scope, is_valid_effect,
  is_valid_condition, parse_audit_event, is_valid_audit_event,
}
use liminal_engine.Policy.Decision.{PolicyMode, PolicyDecision}
use liminal_engine.Gateway.Intercept.{intercept}
use liminal_engine.Prelude.Effect.{◌>>=◌}
use liminal_engine.Contracts.PolicyRule.{Verdict}
use liminal_engine.Contracts.Value.{read_path}
use liminal_engine.Contracts.Redact.{redact_audit_event_snapshots}
use liminal_engine.Policy.Decision.{DecisionSource, bare_decision}
use liminal_engine.Policy.Scope.{evaluate_scope}
use liminal_engine.Policy.Wildcard.{wildcard_match, match_codes, match_star}
use liminal_engine.Policy.Conditions.{condition_matches, read_condition_field}
use liminal_engine.Policy.Engine.{
  match_specificity, compare_candidates, decision_from_rule, best_matching_rule, decide,
  decide_from_store,
}
use liminal_engine.Policy.Engine.Laws.{IsJustified}
use liminal_engine.Policy.Store.{active_rules, all_rules}
use liminal_engine.Governance.Ledger.{append}
use liminal_engine.Governance.Journal.{next_id, now, append_to_ledger}
use liminal_engine.Governance.PolicyAudit.{append_policy_verdict_audit}
use liminal_engine.Gateway.History.{record_entry}
use liminal_engine.Gateway.State.{
  PreparedAction, take_id, take_time, put_in_history, append_verdict, decide_now, record_history,
  prepare_action,
}
use liminal_engine.Gateway.Intercept.{hold, conclude}
use liminal_engine.Gateway.Intercept.Outcome.{IsIntercepted, intercept-IsIntercepted}
use liminal_engine.Gateway.Intercept.Allowed.{intercept-allowed}
use liminal_engine.Gateway.Operator.{Request, serve_all}
use liminal_engine.Gateway.Growth.Kept.{Grows, serve_all-Grows}
use liminal_engine.Tests.Fixtures.{zod, collate, merge, learned_rules, host, start}

abbrev requests : List Request
requests =
    Request.intercept_action merge
    ∷ Request.forward_pending none
    ∷ Request.set_mode PolicyMode.learned
    ∷ Request.intercept_action (record merge { id = "" })
    ∷ []

serve_all-Grows_example : Grows (start []) (serve_all host requests (start []))
serve_all-Grows_example = serve_all-Grows host requests (start [])

abbrev reviewed : PolicyDecision
reviewed = record (bare_decision Verdict.allow [] [] DecisionSource.policy) {
  source_rule_id = some "pr_22";
}

intercepts :
    intercept host merge (start learned_rules)
    ≡ (ok reviewed, (intercept host merge (start learned_rules)).1)
unfolding intercept prepare_action decide_now hold conclude append_verdict record_history take_id
    take_time put_in_history record_entry append_policy_verdict_audit next_id now append_to_ledger
    append parse_audit_event is_valid_audit_event active_rules all_rules decide_from_store decide
    parse_action parse_rule is_valid_action is_valid_rule is_valid_scope is_valid_effect
    is_valid_condition evaluate_scope best_matching_rule compare_candidates match_specificity
    condition_matches read_condition_field read_path decision_from_rule wildcard_match match_codes
    match_star redact_audit_event_snapshots ◌>>=◌
intercepts = ap (λ r. (r, (intercept host merge (start learned_rules)).1)) refl

intercept-IsIntercepted_example :
    IsIntercepted host merge
      (start learned_rules)
      reviewed
      (intercept host merge (start learned_rules)).1
intercept-IsIntercepted_example =
    intercept-IsIntercepted host merge (start learned_rules)
      (intercept host merge (start learned_rules)).1 reviewed intercepts

intercept-allowed_example :
    (prepared : PreparedAction) × ((prepare_action host merge true (start learned_rules)).0
      ≡ ok prepared)
    × ((intercept host merge (start learned_rules)).1.queue ≡ [])
    × (is_valid_action zod prepared.action ≡ true)
    × IsJustified zod collate prepared.action
        (active_rules collate learned_rules)
        (record { mode = PolicyMode.intercept; scope = none })
        reviewed
intercept-allowed_example =
    intercept-allowed host merge (start learned_rules)
      (intercept host merge (start learned_rules)).1 reviewed intercepts refl
