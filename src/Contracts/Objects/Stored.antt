-- ===== src/Contracts/Objects/Stored.antt =====
-- A rule that was stored as a value is read back: packages/contracts/src/action-policy-rule.contract.ts.
use liminal_engine.Prelude.{
  String, ◌≡◌, refl, Option-cases, inl, inr, true, Option, none, some, List, [], ◌∷◌,
}
use liminal_engine.Contracts.Value.{Value}
use liminal_engine.Contracts.Audit.{strings}
use liminal_engine.Contracts.PolicyRule.{
  Verdict, ConditionField, ConditionOp, ConditionValue, Condition, RuleScope, RuleEffect,
  RuleStatus, EnforcementActionType, ActionPolicyRule,
}
use liminal_engine.Contracts.Zod.{Zod}
use liminal_engine.Contracts.Parsing.{is_valid_rule}
use liminal_engine.Contracts.Canonical.Intercepted.{
  rule_verdict_text, field_text, op_text, condition_value, canonical_condition, action_type_text,
  rule_status_text,
}
use liminal_engine.Contracts.Objects.{scope_value, effect_value, rule_value, read_items, read_enum}
use liminal_engine.Contracts.Objects.Reading.{
  verdicts, statuses, action_types, condition_fields, condition_ops, read_condition_value,
  read_condition, read_scope, read_effect, read_rule_shape, read_rule,
}

pub read_verdict-text :
    (v : Verdict) → read_enum verdicts (Value.string (rule_verdict_text v)) ≡ some v
read_verdict-text Verdict.allow = refl
read_verdict-text Verdict.deny = refl
read_verdict-text Verdict.ask = refl

read_status-text :
    (s : RuleStatus) → read_enum statuses (Value.string (rule_status_text s)) ≡ some s
read_status-text RuleStatus.proposed = refl
read_status-text RuleStatus.active = refl
read_status-text RuleStatus.narrowed = refl
read_status-text RuleStatus.retired = refl

read_action_type-text :
    (t : EnforcementActionType)
    → read_enum action_types (Value.string (action_type_text t)) ≡ some t
read_action_type-text EnforcementActionType.change_status = refl
read_action_type-text EnforcementActionType.create_linear_workstream = refl
read_action_type-text EnforcementActionType.assign_owner = refl
read_action_type-text EnforcementActionType.block_agent_action = refl
read_action_type-text EnforcementActionType.require_approval = refl
read_action_type-text EnforcementActionType.generate_eval = refl
read_action_type-text EnforcementActionType.activate_policy = refl
read_action_type-text EnforcementActionType.record_audit_event = refl

read_field-text :
    (f : ConditionField) → read_enum condition_fields (Value.string (field_text f)) ≡ some f
read_field-text ConditionField.tool = refl
read_field-text ConditionField.action = refl
read_field-text ConditionField.target = refl
read_field-text ConditionField.args_force = refl
read_field-text ConditionField.reviews_approved = refl
read_field-text ConditionField.reviews_rejected = refl
read_field-text ConditionField.repo_visibility = refl
read_field-text ConditionField.deploy_environment = refl

read_op-text : (o : ConditionOp) → read_enum condition_ops (Value.string (op_text o)) ≡ some o
read_op-text ConditionOp.lt = refl
read_op-text ConditionOp.le = refl
read_op-text ConditionOp.gt = refl
read_op-text ConditionOp.ge = refl
read_op-text ConditionOp.eq = refl
read_op-text ConditionOp.ne = refl
read_op-text ConditionOp.contains = refl
read_op-text ConditionOp.matches = refl

read_condition_value-value :
    (v : ConditionValue) → read_condition_value (condition_value v) ≡ some v
read_condition_value-value (ConditionValue.text s) = refl
read_condition_value-value (ConditionValue.number n) = refl
read_condition_value-value (ConditionValue.flag b) = refl

read_condition-canonical : (c : Condition) → read_condition (canonical_condition c) ≡ some c
unfolding read_condition
read_condition-canonical c =
    rw (read_field-text c.field, read_op-text c.op, read_condition_value-value c.value)

pub read_items-strings : (ss : List String) → read_items (strings ss) ≡ some ss
read_items-strings [] = refl
read_items-strings (s ∷ ss) = rw (read_items-strings ss)

scope_of : String → String → Option String → Option Condition → RuleScope
scope_of tool action pattern condition = record {
  tool = tool;
  action = action;
  target_pattern = pattern;
  condition = condition;
}

read_scope-scope_of :
    (tool action : String) (pattern : Option String) (condition : Option Condition)
    → read_scope (scope_value (scope_of tool action pattern condition))
      ≡ some (scope_of tool action pattern condition)
unfolding read_scope scope_of
read_scope-scope_of tool action none none = refl
read_scope-scope_of tool action (some p) none = refl
read_scope-scope_of tool action none (some c) = rw (read_condition-canonical c)
read_scope-scope_of tool action (some p) (some c) = rw (read_condition-canonical c)

read_scope-value : (s : RuleScope) → read_scope (scope_value s) ≡ some s
unfolding scope_of
read_scope-value s = read_scope-scope_of s.tool s.action s.target_pattern s.condition

read_effect-value : (e : RuleEffect) → read_effect (effect_value e) ≡ some e
unfolding read_effect
read_effect-value e = rw (
  read_verdict-text e.verdict,
  read_action_type-text e.action_type,
  read_items-strings e.reasons,
  read_items-strings e.required_before,
)

read_rule_shape-value : (r : ActionPolicyRule) → read_rule_shape (rule_value r) ≡ some r
unfolding read_rule_shape rule_value
read_rule_shape-value r = elim (Option-cases r.supersedes_id) [
  | inl e ↦
      rw (e, read_scope-value r.scope, read_effect-value r.effect, read_status-text r.status, ← e)
  | inr (s, e) ↦
      rw (e, read_scope-value r.scope, read_effect-value r.effect, read_status-text r.status, ← e)
]

-- A valid rule that was stored as a value is read back as it was.
pub read_rule-rule_value :
    (zod : Zod) (r : ActionPolicyRule)
    → is_valid_rule zod r ≡ true
    → read_rule zod (rule_value r) ≡ some r
unfolding read_rule
read_rule-rule_value zod r valid = rw (read_rule_shape-value r, valid)
