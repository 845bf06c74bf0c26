-- ===== src/Tests/Verdicts.antt =====
-- The operator's verdicts on a held action of the fixtures.
use liminal_engine.Prelude.{◌≡◌, refl, true, none, some, List, [], ◌∷◌, Result, ok, err}
use liminal_engine.Prelude.Effect.{◌>>=◌}
use liminal_engine.Contracts.Parsing.{
  parse_action, is_valid_action, parse_rule, is_valid_rule, is_valid_scope, is_valid_effect,
  is_valid_condition, parse_audit_event, is_valid_audit_event, parse_correction,
  is_valid_correction, parse_eval_case, is_valid_eval_case,
}
use liminal_engine.Contracts.PolicyRule.{ActionPolicyRule}
use liminal_engine.Contracts.Value.{read_path}
use liminal_engine.Contracts.Redact.{
  redact_audit_event_snapshots, redact_audit_snapshot, is_sensitive,
}
use liminal_engine.Contracts.Audit.{audit_canonical}
use liminal_engine.Contracts.Objects.{action_value}
use liminal_engine.Contracts.CanonicalHash.{canonical_hash}
use liminal_engine.Contracts.CanonicalHash.Sha256.{sha256_hex}
use liminal_engine.Contracts.CanonicalHash.Stringify.{
  stable_stringify, object_text, compare_keys, units, quote, quote_code, digits,
}
use liminal_engine.Policy.Decision.{PolicyMode}
use liminal_engine.Policy.Engine.{decide_from_store, decision_from_rule}
use liminal_engine.Policy.Store.{active_rules, put_rule}
use liminal_engine.Policy.Queue.{QueuedIntercept, remove, pending}
use liminal_engine.Governance.Ledger.{append, hash_event}
use liminal_engine.Governance.Journal.{next_id, now, append_to_ledger}
use liminal_engine.Governance.PolicyAudit.{append_policy_verdict_audit, append_policy_rule_audit}
use liminal_engine.Governance.Correction.Scopes.{target_pattern_for}
use liminal_engine.Gateway.History.{record_entry}
use liminal_engine.Gateway.State.{
  GatewayState, take_id, take_time, put_in_history, append_verdict, record_history, put_in_store,
  audit_rule, take_from_queue,
}
use liminal_engine.Gateway.Approval.{approval_scope_for, approval_rule, compile_approval_rule}
use liminal_engine.Gateway.Approval.Governing.{approval_rule-Governs}
use liminal_engine.Policy.Engine.Selection.{Governs}
use liminal_engine.Policy.Scope.{evaluate_scope}
use liminal_engine.Gateway.Operator.{
  OperatorVerdictInput, OperatorVerdictResult, to_forward, to_drop, operator_verdict,
  approve_action, record_correction, operator_allows, resolve_all,
}
use liminal_engine.Gateway.Operator.Approved.{operator_verdict-teaches}
use liminal_engine.Gateway.Growth.Drained.{operator_verdict-once, resolve_all-drains}
use liminal_engine.Tests.Fixtures.{zod, collate, merge, host, got, ends_ok, waiting}

operator_verdict-once_example :
    operator_verdict host
      (to_drop "q_1" "no" none none)
      (operator_verdict host (to_forward "q_1" "yes" none) waiting).1
    ≡ (
      err "no queued intercept q_1",
      (operator_verdict host (to_forward "q_1" "yes" none) waiting).1,
    )
operator_verdict-once_example =
    operator_verdict-once host (to_forward "q_1" "yes" none) (to_drop "q_1" "no" none none) waiting
      refl

-- The answer to the verdict, and the gateway after it.
abbrev nothing_said : OperatorVerdictResult
nothing_said = record {
  decision = operator_allows;
  compiled_rules = [];
  eval_cases = [];
  preview = [];
}

abbrev forwarding_it : Result OperatorVerdictResult × GatewayState
forwarding_it = operator_verdict host (to_forward "q_1" "yes" none) waiting

abbrev answered : OperatorVerdictResult
answered = got nothing_said forwarding_it.0

forwards : forwarding_it ≡ (ok answered, forwarding_it.1)
unfolding operator_verdict take_from_queue remove approve_action record_correction append_verdict
    record_history compile_approval_rule put_in_store audit_rule put_in_history take_id take_time
    parse_correction is_valid_correction parse_eval_case is_valid_eval_case parse_action
    is_valid_action parse_rule is_valid_rule is_valid_scope is_valid_effect is_valid_condition
    parse_audit_event is_valid_audit_event append next_id now append_to_ledger
    append_policy_verdict_audit append_policy_rule_audit record_entry put_rule approval_scope_for
    target_pattern_for read_path redact_audit_event_snapshots hash_event canonical_hash sha256_hex
    stable_stringify audit_canonical object_text compare_keys units quote quote_code
    redact_audit_snapshot is_sensitive action_value digits ◌>>=◌
forwards = ends_ok nothing_said forwarding_it refl

operator_verdict-teaches_example :
    (rule : ActionPolicyRule) × (answered.compiled_rules ≡ rule ∷ [])
    × (decide_from_store zod collate merge
          (ok (active_rules collate forwarding_it.1.rules))
          (record { mode = PolicyMode.learned; scope = none })
        ≡ decision_from_rule rule PolicyMode.learned)
    × ((decision_from_rule rule PolicyMode.learned).allowed ≡ true)
    × ((decision_from_rule rule PolicyMode.learned).source_rule_id ≡ some rule.id)
unfolding is_valid_action remove evaluate_scope
operator_verdict-teaches_example =
    operator_verdict-teaches host "q_1" "yes"
      (record { id = "q_1"; action = merge; enqueued_at = "2026-06-27T10:00:00.000Z" }) answered
      waiting forwarding_it.1 PolicyMode.learned none refl forwards tt tt refl refl refl

abbrev yes_to : QueuedIntercept → OperatorVerdictInput
yes_to item = to_forward item.id "yes" none

abbrev forwarding_all : Result (List OperatorVerdictResult) × GatewayState
forwarding_all = resolve_all host yes_to waiting

forwards_all : forwarding_all ≡ (ok (answered ∷ []), forwarding_all.1)
unfolding resolve_all pending ◌>>=◌
forwards_all = rw forwards refl

resolve_all-drains_example : forwarding_all.1.queue ≡ []
resolve_all-drains_example =
    resolve_all-drains host yes_to (λ item. refl) waiting forwarding_all.1 (answered ∷ [])
      forwards_all

approval_rule-Governs_example :
    (n : _) × Governs merge
      (approval_rule merge "corr_1" "pr_1" "eval_1" "2026-06-27T10:00:00.000Z")
      n
approval_rule-Governs_example =
    approval_rule-Governs merge "corr_1" "pr_1" "eval_1" "2026-06-27T10:00:00.000Z"
