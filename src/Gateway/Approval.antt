-- ===== src/Gateway/Approval.antt =====
-- `compileApprovalRule` of packages/integrations/intercept-gateway/src/gateway.ts: the rule that an
-- approved action leaves behind.
pub mod Governing
pub mod Learned
use liminal_engine.Prelude.{
  String, template, ◌==◌, Bool, ◌&&◌, Option, none, some, [], ◌∷◌, if◌then◌else◌,
}
use liminal_engine.Prelude.Words.{is_empty, trim}
use liminal_engine.Prelude.Effect.{Effect, lift, return, ◌>>=◌}
use liminal_engine.Contracts.Value.{Value, read_path}
use liminal_engine.Contracts.Action.{InterceptedAction}
use liminal_engine.Contracts.PolicyRule.{
  Verdict, ConditionField, ConditionOp, ConditionValue, Condition, RuleScope, RuleStatus,
  EnforcementActionType, ActionPolicyRule,
}
use liminal_engine.Contracts.Correction.{EvalCase}
use liminal_engine.Contracts.Parsing.{parse_rule, parse_eval_case}
use liminal_engine.Governance.Correction.Scopes.{optional_pattern}
use liminal_engine.Governance.PolicyAudit.{Deciding}
use liminal_engine.Gateway.State.{Host, GatewayState, take_id, take_time}

abbrev pub at_least_as_approved : Value → Option Condition
at_least_as_approved (Value.number n) = some (record {
  field = ConditionField.reviews_approved;
  op = ConditionOp.ge;
  value = ConditionValue.number n;
})
at_least_as_approved _ = none

-- `approvalScopeFor`
unfoldable pub approval_scope_for : InterceptedAction → RuleScope
approval_scope_for action = record {
  tool = action.tool;
  action = action.action;
  target_pattern = optional_pattern action.target;
  condition =
      if action.tool == "gh" && action.action == "pr-merge"
      then at_least_as_approved (read_path (Value.object action.args) ("reviews" ∷ "approved" ∷ []))
      else none;
}

abbrev pub approval_rule : InterceptedAction → String → String → String → String → ActionPolicyRule
approval_rule action correction_id id eval_case_id at = record {
  id = id;
  version = 1;
  from_correction_id = correction_id;
  eval_case_id = eval_case_id;
  scope = approval_scope_for action;
  effect = record {
    verdict = Verdict.allow;
    action_type = EnforcementActionType.activate_policy;
    reasons = [];
    required_before = [];
  };
  status = RuleStatus.active;
  supersedes_id = none;
  created_at = at;
}

abbrev approved_class : InterceptedAction → String → String
approved_class action reason =
    if is_empty (trim reason)
    then template (action.tool ∷ " " ∷ action.action ∷ [])
    else trim reason

abbrev pub approval_case :
    Deciding → InterceptedAction → String → ActionPolicyRule → String → EvalCase
approval_case who action reason rule at = record {
  id = rule.eval_case_id;
  deal_id = who.deal_id;
  governance_case_id = who.case_id;
  criterion =
      template
        ("Policy " ∷ rule.id ∷ " preserves approved class: " ∷ approved_class action reason ∷ []);
  created_at = at;
}

-- `compileApprovalRule`
unfoldable pub compile_approval_rule :
    Host → InterceptedAction → String → String → Effect GatewayState (ActionPolicyRule × EvalCase)
compile_approval_rule host action correction_id reason = do
  rule_id ← take_id host
  eval_case_id ← take_id host
  created_at ← take_time host
  rule ←
      lift
        (parse_rule host.zod (approval_rule action correction_id rule_id eval_case_id created_at))
  graded_at ← take_time host
  eval_case ← lift (parse_eval_case host.zod (approval_case host.who action reason rule graded_at))
  return (rule, eval_case)
