-- ===== src/Contracts/Canonical/Intercepted.antt =====
-- The canonical projections of packages/contracts/src/intercepted-action.contract.ts and
-- action-policy-rule.contract.ts.
use liminal_engine.Prelude.{String}
use liminal_engine.Prelude.Int.{pos}
use liminal_engine.Contracts.Value.{Value, Fields}
use liminal_engine.Contracts.Action.{InterceptedAction}
use liminal_engine.Contracts.PolicyRule.{
  Verdict, ConditionField, ConditionOp, ConditionValue, Condition, RuleScope, RuleEffect,
  RuleStatus, EnforcementActionType, ActionPolicyRule,
}
use liminal_engine.Contracts.Audit.{optional_field, string_array}

-- `interceptedActionContract.canonical`
unfoldable pub action_canonical : InterceptedAction → Fields
action_canonical a = Fields.field "schema" (Value.string "liminal_engine.intercepted_action.v1") (
    Fields.field "id" (Value.string a.id) (
      Fields.field "tool" (Value.string a.tool) (
        Fields.field "action" (Value.string a.action) (
          optional_field "target" Value.string a.target (
            Fields.field "args" (Value.object a.args) (
              optional_field "agent_id" Value.string a.agent_id (
                optional_field "session_id" Value.string a.session_id (
                  optional_field "goal_id" Value.string a.goal_id (
                    optional_field "lane" Value.string a.lane (
                      Fields.field "requested_at" (Value.string a.requested_at)
                        Fields.empty))))))))))

abbrev pub rule_verdict_text : Verdict → String
rule_verdict_text Verdict.allow = "allow"
rule_verdict_text Verdict.deny = "deny"
rule_verdict_text Verdict.ask = "ask"

abbrev pub field_text : ConditionField → String
field_text ConditionField.tool = "tool"
field_text ConditionField.action = "action"
field_text ConditionField.target = "target"
field_text ConditionField.args_force = "args.force"
field_text ConditionField.reviews_approved = "reviews.approved"
field_text ConditionField.reviews_rejected = "reviews.rejected"
field_text ConditionField.repo_visibility = "repo.visibility"
field_text ConditionField.deploy_environment = "deploy.environment"

abbrev pub op_text : ConditionOp → String
op_text ConditionOp.lt = "<"
op_text ConditionOp.le = "<="
op_text ConditionOp.gt = ">"
op_text ConditionOp.ge = ">="
op_text ConditionOp.eq = "=="
op_text ConditionOp.ne = "!="
op_text ConditionOp.contains = "contains"
op_text ConditionOp.matches = "matches"

abbrev pub condition_value : ConditionValue → Value
condition_value (ConditionValue.text s) = Value.string s
condition_value (ConditionValue.number n) = Value.number n
condition_value (ConditionValue.flag b) = Value.boolean b

-- `canonicalCondition`
abbrev pub canonical_condition : Condition → Value
canonical_condition c = Value.object (
    Fields.field "field" (Value.string (field_text c.field)) (
      Fields.field "op" (Value.string (op_text c.op))
        (Fields.field "value" (condition_value c.value) Fields.empty)))

abbrev scope_fields : RuleScope → Fields
scope_fields s = Fields.field "tool" (Value.string s.tool) (
    Fields.field "action" (Value.string s.action) (
      optional_field "target_pattern" Value.string s.target_pattern
        (optional_field "condition" canonical_condition s.condition Fields.empty)))

abbrev pub action_type_text : EnforcementActionType → String
action_type_text EnforcementActionType.change_status = "change_status"
action_type_text EnforcementActionType.create_linear_workstream = "create_linear_workstream"
action_type_text EnforcementActionType.assign_owner = "assign_owner"
action_type_text EnforcementActionType.block_agent_action = "block_agent_action"
action_type_text EnforcementActionType.require_approval = "require_approval"
action_type_text EnforcementActionType.generate_eval = "generate_eval"
action_type_text EnforcementActionType.activate_policy = "activate_policy"
action_type_text EnforcementActionType.record_audit_event = "record_audit_event"

abbrev effect_fields : RuleEffect → Fields
effect_fields e = Fields.field "verdict" (Value.string (rule_verdict_text e.verdict)) (
    Fields.field "action_type" (Value.string (action_type_text e.action_type)) (
      Fields.field "reasons" (string_array e.reasons)
        (Fields.field "required_before" (string_array e.required_before) Fields.empty)))

abbrev pub rule_status_text : RuleStatus → String
rule_status_text RuleStatus.proposed = "proposed"
rule_status_text RuleStatus.active = "active"
rule_status_text RuleStatus.narrowed = "narrowed"
rule_status_text RuleStatus.retired = "retired"

-- `actionPolicyRuleContract.canonical`
unfoldable pub rule_canonical : ActionPolicyRule → Fields
rule_canonical r = Fields.field "schema" (Value.string "liminal_engine.action_policy_rule.v1") (
    Fields.field "id" (Value.string r.id) (
      Fields.field "version" (Value.number (pos r.version)) (
        Fields.field "from_correction_id" (Value.string r.from_correction_id) (
          Fields.field "eval_case_id" (Value.string r.eval_case_id) (
            Fields.field "scope" (Value.object (scope_fields r.scope)) (
              Fields.field "effect" (Value.object (effect_fields r.effect)) (
                Fields.field "status" (Value.string (rule_status_text r.status)) (
                  optional_field "supersedes_id" Value.string r.supersedes_id
                    (Fields.field "created_at" (Value.string r.created_at) Fields.empty)))))))))
