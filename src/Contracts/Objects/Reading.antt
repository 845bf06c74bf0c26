-- ===== src/Contracts/Objects/Reading.antt =====
-- `actionPolicyRuleContract.safeParse` of packages/contracts/src/action-policy-rule.contract.ts on a
-- value of any shape.
use liminal_engine.Prelude.{String, Option, none, some, List, [], ◌∷◌}
use liminal_engine.Contracts.Value.{Value, get}
use liminal_engine.Contracts.PolicyRule.{
  Verdict, ConditionField, ConditionOp, ConditionValue, Condition, RuleScope, RuleEffect,
  RuleStatus, EnforcementActionType, ActionPolicyRule,
}
use liminal_engine.Contracts.Zod.{Zod}
use liminal_engine.Contracts.Parsing.{is_valid_rule}
use liminal_engine.Contracts.Objects.{
  ◌>>=◌, ◌>>◌, require, read_object, read_text, read_optional, read_texts, read_positive, read_enum,
}

abbrev pub verdicts : List (String × Verdict)
verdicts = ("allow", Verdict.allow) ∷ ("deny", Verdict.deny) ∷ ("ask", Verdict.ask) ∷ []

abbrev pub statuses : List (String × RuleStatus)
statuses =
    ("proposed", RuleStatus.proposed)
    ∷ ("active", RuleStatus.active)
    ∷ ("narrowed", RuleStatus.narrowed)
    ∷ ("retired", RuleStatus.retired)
    ∷ []

abbrev pub action_types : List (String × EnforcementActionType)
action_types =
    ("change_status", EnforcementActionType.change_status)
    ∷ ("create_linear_workstream", EnforcementActionType.create_linear_workstream)
    ∷ ("assign_owner", EnforcementActionType.assign_owner)
    ∷ ("block_agent_action", EnforcementActionType.block_agent_action)
    ∷ ("require_approval", EnforcementActionType.require_approval)
    ∷ ("generate_eval", EnforcementActionType.generate_eval)
    ∷ ("activate_policy", EnforcementActionType.activate_policy)
    ∷ ("record_audit_event", EnforcementActionType.record_audit_event)
    ∷ []

abbrev pub condition_fields : List (String × ConditionField)
condition_fields =
    ("tool", ConditionField.tool)
    ∷ ("action", ConditionField.action)
    ∷ ("target", ConditionField.target)
    ∷ ("args.force", ConditionField.args_force)
    ∷ ("reviews.approved", ConditionField.reviews_approved)
    ∷ ("reviews.rejected", ConditionField.reviews_rejected)
    ∷ ("repo.visibility", ConditionField.repo_visibility)
    ∷ ("deploy.environment", ConditionField.deploy_environment)
    ∷ []

abbrev pub condition_ops : List (String × ConditionOp)
condition_ops =
    ("<", ConditionOp.lt)
    ∷ ("<=", ConditionOp.le)
    ∷ (">", ConditionOp.gt)
    ∷ (">=", ConditionOp.ge)
    ∷ ("==", ConditionOp.eq)
    ∷ ("!=", ConditionOp.ne)
    ∷ ("contains", ConditionOp.contains)
    ∷ ("matches", ConditionOp.matches)
    ∷ []

abbrev pub read_condition_value : Value → Option ConditionValue
read_condition_value (Value.string s) = some (ConditionValue.text s)
read_condition_value (Value.number n) = some (ConditionValue.number n)
read_condition_value (Value.boolean b) = some (ConditionValue.flag b)
read_condition_value _ = none

unfoldable pub read_condition : Value → Option Condition
read_condition v = do
  fs ← read_object ("field" ∷ "op" ∷ "value" ∷ []) v
  field ← read_enum condition_fields (get "field" fs)
  op ← read_enum condition_ops (get "op" fs)
  value ← read_condition_value (get "value" fs)
  some (record { field = field; op = op; value = value })

unfoldable pub read_scope : Value → Option RuleScope
read_scope v = do
  fs ← read_object ("tool" ∷ "action" ∷ "targetPattern" ∷ "condition" ∷ []) v
  tool ← read_text (get "tool" fs)
  action ← read_text (get "action" fs)
  target_pattern ← read_optional read_text (get "targetPattern" fs)
  condition ← read_optional read_condition (get "condition" fs)
  some (record {
    tool = tool;
    action = action;
    target_pattern = target_pattern;
    condition = condition;
  })

unfoldable pub read_effect : Value → Option RuleEffect
read_effect v = do
  fs ← read_object ("verdict" ∷ "actionType" ∷ "reasons" ∷ "requiredBefore" ∷ []) v
  verdict ← read_enum verdicts (get "verdict" fs)
  action_type ← read_enum action_types (get "actionType" fs)
  reasons ← read_texts (get "reasons" fs)
  required_before ← read_texts (get "requiredBefore" fs)
  some (record {
    verdict = verdict;
    action_type = action_type;
    reasons = reasons;
    required_before = required_before;
  })

abbrev pub rule_keys : List String
rule_keys =
    "id" ∷ "version" ∷ "fromCorrectionId" ∷ "evalCaseId" ∷ "scope" ∷ "effect" ∷ "status"
    ∷ "supersedesId" ∷ "createdAt" ∷ []

unfoldable pub read_rule_shape : Value → Option ActionPolicyRule
read_rule_shape v = do
  fs ← read_object rule_keys v
  id ← read_text (get "id" fs)
  version ← read_positive (get "version" fs)
  from_correction_id ← read_text (get "fromCorrectionId" fs)
  eval_case_id ← read_text (get "evalCaseId" fs)
  scope ← read_scope (get "scope" fs)
  effect ← read_effect (get "effect" fs)
  status ← read_enum statuses (get "status" fs)
  supersedes_id ← read_optional read_text (get "supersedesId" fs)
  created_at ← read_text (get "createdAt" fs)
  some (record {
    id = id;
    version = version;
    from_correction_id = from_correction_id;
    eval_case_id = eval_case_id;
    scope = scope;
    effect = effect;
    status = status;
    supersedes_id = supersedes_id;
    created_at = created_at;
  })

-- `safeParse`: the rule, or nothing where the value is refused.
unfoldable pub read_rule : Zod → Value → Option ActionPolicyRule
read_rule zod v = do rule ← read_rule_shape v; require (is_valid_rule zod rule); some rule
