-- ===== src/Contracts/Parsing.antt =====
-- packages/contracts/src: `parse` of the contracts for actions, learned rules, audit events and
-- requirements. See Zod.antt for what is taken from the validation library.
use liminal_engine.Prelude.{
  ltb, String, Bool, true, false, not, ◌&&◌, ◌||◌, Option, none, some, is_some, List, [], ◌∷◌, all,
  Result, ok, err, if◌then◌else◌, ◌≡◌, arith,
}
use liminal_engine.Contracts.Zod.{Zod, non_empty, optional}
use liminal_engine.Contracts.Audit.{AuditEvent}
use liminal_engine.Contracts.Correction.{CorrectionEvent, EvalCase}
use liminal_engine.Contracts.EnforcementAction.{EnforcementAction}
use liminal_engine.Contracts.Requirement.{RequirementStatus, Requirement}
use liminal_engine.Contracts.Action.{InterceptedAction}
use liminal_engine.Contracts.PolicyRule.{
  is_allow, ConditionOp, ConditionValue, Condition, RuleScope, RuleEffect, is_narrowed,
  ActionPolicyRule,
}

abbrev is_nil : List String → Bool
is_nil [] = true
is_nil (x ∷ xs) = false

abbrev is_numeric_op : ConditionOp → Bool
is_numeric_op ConditionOp.lt = true
is_numeric_op ConditionOp.le = true
is_numeric_op ConditionOp.gt = true
is_numeric_op ConditionOp.ge = true
is_numeric_op _ = false

abbrev is_text_op : ConditionOp → Bool
is_text_op ConditionOp.contains = true
is_text_op ConditionOp.matches = true
is_text_op _ = false

abbrev is_number : ConditionValue → Bool
is_number (ConditionValue.number n) = true
is_number _ = false

abbrev is_text : ConditionValue → Bool
is_text (ConditionValue.text s) = true
is_text _ = false

-- `actionPolicyStructuredConditionShape`
unfoldable pub is_valid_condition : Condition → Bool
is_valid_condition c =
    (not (is_numeric_op c.op) || is_number c.value) && (not (is_text_op c.op) || is_text c.value)

abbrev is_valid_condition? : Option Condition → Bool
is_valid_condition? none = true
is_valid_condition? (some c) = is_valid_condition c

-- `actionPolicyRuleScopeShape`
unfoldable pub is_valid_scope : RuleScope → Bool
unfolding is_valid_condition
is_valid_scope s =
    non_empty s.tool
    && non_empty s.action
    && optional non_empty s.target_pattern
    && is_valid_condition? s.condition

-- `actionPolicyRuleEffectShape`
unfoldable pub is_valid_effect : RuleEffect → Bool
is_valid_effect e =
    all non_empty e.reasons
    && all non_empty e.required_before
    && (is_allow e.verdict || not (is_nil e.reasons))
    && (not (is_allow e.verdict) || is_nil e.reasons)
    && (not (is_allow e.verdict) || is_nil e.required_before)

module _ (zod : Zod) where
  -- `interceptedActionShape`
  unfoldable pub is_valid_action : InterceptedAction → Bool
  is_valid_action a =
      non_empty a.id
      && non_empty a.tool
      && non_empty a.action
      && optional non_empty a.target
      && optional non_empty a.agent_id
      && optional non_empty a.session_id
      && optional non_empty a.goal_id
      && optional non_empty a.lane
      && zod.is_datetime a.requested_at

  unfoldable pub parse_action : InterceptedAction → Result InterceptedAction
  parse_action a = if is_valid_action a then ok a else err (zod.action_message a)

  -- `actionPolicyRuleShape`
  unfoldable pub is_valid_rule : ActionPolicyRule → Bool
  is_valid_rule r =
      non_empty r.id
      && ltb 0 r.version
      && non_empty r.from_correction_id
      && non_empty r.eval_case_id
      && is_valid_scope r.scope
      && is_valid_effect r.effect
      && optional non_empty r.supersedes_id
      && zod.is_datetime r.created_at
      && (not (is_narrowed r.status) || is_some r.supersedes_id)

  unfoldable pub parse_rule : ActionPolicyRule → Result ActionPolicyRule
  parse_rule r = if is_valid_rule r then ok r else err (zod.rule_message r)

  -- Parsing returns its argument or throws.
  pub parse_rule-eq : (r s : ActionPolicyRule) → parse_rule r ≡ ok s → r ≡ s
  unfolding parse_rule
  parse_rule-eq r s h = ground arith

  pub parse_action-eq : (a b : InterceptedAction) → parse_action a ≡ ok b → a ≡ b
  unfolding parse_action
  parse_action-eq a b h = ground arith

abbrev optional_strings : Option (List String) → Bool
optional_strings none = true
optional_strings (some ss) = all non_empty ss

abbrev pub is_requirement_active : RequirementStatus → Bool
is_requirement_active RequirementStatus.active = true
is_requirement_active _ = false

module _ (zod : Zod) where
  -- `auditEventShape`
  unfoldable pub is_valid_audit_event : AuditEvent → Bool
  is_valid_audit_event e =
      non_empty e.id
      && non_empty e.case_id
      && non_empty e.deal_id
      && non_empty e.action
      && non_empty e.deciding_actor
      && zod.is_datetime e.recorded_at
      && optional_strings e.evidence_ids
      && optional_strings e.action_ids
      && optional_strings e.eval_ids
      && optional_strings e.affected_systems
      && optional non_empty e.prev_hash

  unfoldable pub parse_audit_event : AuditEvent → Result AuditEvent
  parse_audit_event e = if is_valid_audit_event e then ok e else err (zod.audit_message e)

  pub parse_audit_event-eq : (e f : AuditEvent) → parse_audit_event e ≡ ok f → e ≡ f
  unfolding parse_audit_event
  parse_audit_event-eq e f h = ground arith

  -- `requirementShape`
  unfoldable pub is_valid_requirement : Requirement → Bool
  is_valid_requirement r =
      non_empty r.id
      && non_empty r.goal_id
      && non_empty r.deal_id
      && non_empty r.text
      && non_empty r.owner_role
      && all non_empty r.scope
      && optional non_empty r.approved_by
      && all non_empty r.evidence_refs
      && zod.is_datetime r.created_at
      && optional zod.is_datetime r.activated_at
      && (not (is_requirement_active r.status) || is_some r.approved_by)

  -- `correctionEventShape`
  unfoldable pub is_valid_correction : CorrectionEvent → Bool
  is_valid_correction c =
      non_empty c.id
      && non_empty c.case_id
      && non_empty c.deal_id
      && non_empty c.correction
      && non_empty c.deciding_actor
      && zod.is_datetime c.corrected_at

  unfoldable pub parse_correction : CorrectionEvent → Result CorrectionEvent
  parse_correction c = if is_valid_correction c then ok c else err (zod.correction_message c)

  -- `evalCaseShape`
  unfoldable pub is_valid_eval_case : EvalCase → Bool
  is_valid_eval_case c =
      non_empty c.id
      && non_empty c.deal_id
      && non_empty c.governance_case_id
      && non_empty c.criterion
      && zod.is_datetime c.created_at

  unfoldable pub parse_eval_case : EvalCase → Result EvalCase
  parse_eval_case c = if is_valid_eval_case c then ok c else err (zod.eval_case_message c)

  -- `enforcementActionShape`
  unfoldable pub is_valid_enforcement : EnforcementAction → Bool
  is_valid_enforcement a =
      non_empty a.id
      && non_empty a.case_id
      && non_empty a.deal_id
      && non_empty a.actor
      && zod.is_datetime a.enforced_at
      && optional non_empty a.target_system

  unfoldable pub parse_enforcement : EnforcementAction → Result EnforcementAction
  parse_enforcement a = if is_valid_enforcement a then ok a else err (zod.enforcement_message a)
