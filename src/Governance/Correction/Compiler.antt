-- ===== src/Governance/Correction/Compiler.antt =====
-- `compileCorrection` of packages/governance/src/compile-correction.ts. The identifiers and the times
-- are those of the journal, whose ledger it does not touch.
use liminal_engine.Prelude.{String, template, Option, none, some, List, [], ◌∷◌, map, Result}
use liminal_engine.Prelude.Effect.{Effect, throw, lift, return, for_each, ◌>>=◌}
use liminal_engine.Contracts.Value.{Value, Fields}
use liminal_engine.Contracts.Action.{InterceptedAction}
use liminal_engine.Contracts.Audit.{DealStatus}
use liminal_engine.Contracts.PolicyRule.{
  Verdict, RuleScope, RuleStatus, EnforcementActionType, ActionPolicyRule,
}
use liminal_engine.Contracts.Correction.{CorrectionEvent, EvalCase}
use liminal_engine.Contracts.EnforcementAction.{EnforcementAction}
use liminal_engine.Contracts.Zod.{Zod}
use liminal_engine.Contracts.Parsing.{parse_action, parse_rule, parse_eval_case, parse_enforcement}
use liminal_engine.Contracts.Canonical.Intercepted.{action_type_text, rule_status_text}
use liminal_engine.Governance.Journal.{Journal, Deps, next_id, now}
use liminal_engine.Governance.Correction.Atoms.{atomic_corrections}
use liminal_engine.Governance.Correction.Phrases.{Casing, Template, scope_for, template_for}

pub record PolicyRulePreview : Type 0 where
  pub rule_id : String
  pub summary : String
  pub scope : RuleScope
  pub verdict : Verdict
  pub reasons : List String
  pub required_before : List String

-- What one atom of a correction compiles to.
pub record CompiledAtom : Type 0 where
  pub rule : ActionPolicyRule
  pub enforcement : EnforcementAction
  pub eval_case : EvalCase
  pub preview : PolicyRulePreview

pub record CompiledCorrection : Type 0 where
  pub policy_rules : List ActionPolicyRule
  pub enforcement_actions : List EnforcementAction
  pub eval_cases : List EvalCase
  pub preview : List PolicyRulePreview

abbrev pub compiled_rule :
    CorrectionEvent
    → Option InterceptedAction
    → Template
    → String
    → String
    → String
    → ActionPolicyRule
compiled_rule correction originating t id eval_case_id at = record {
  id = id;
  version = 1;
  from_correction_id = correction.id;
  eval_case_id = eval_case_id;
  scope = scope_for t originating;
  effect = record {
    verdict = t.verdict;
    action_type = t.effect_action_type;
    reasons = t.reason ∷ [];
    required_before = t.required_before ∷ [];
  };
  status = RuleStatus.proposed;
  supersedes_id = none;
  created_at = at;
}

abbrev compiled_case : CorrectionEvent → Template → ActionPolicyRule → String → EvalCase
compiled_case correction t rule at = record {
  id = rule.eval_case_id;
  deal_id = correction.deal_id;
  governance_case_id = correction.case_id;
  criterion = template ("Policy " ∷ rule.id ∷ " enforces: " ∷ t.summary ∷ []);
  created_at = at;
}

abbrev payload_of : ActionPolicyRule → EvalCase → Fields
payload_of rule eval_case = Fields.field "ruleId" (Value.string rule.id) (
    Fields.field "ruleStatus" (Value.string (rule_status_text rule.status)) (
      Fields.field "effectActionType" (Value.string (action_type_text rule.effect.action_type))
        (Fields.field "evalCaseId" (Value.string eval_case.id) Fields.empty)))

abbrev compiled_enforcement :
    CorrectionEvent → ActionPolicyRule → EvalCase → String → String → EnforcementAction
compiled_enforcement correction rule eval_case id at = record {
  id = id;
  case_id = correction.case_id;
  deal_id = correction.deal_id;
  from_status = DealStatus.on_track;
  to_status = DealStatus.at_risk;
  actor = correction.deciding_actor;
  enforced_at = at;
  action_type = some EnforcementActionType.activate_policy;
  target_system = some "policy";
  payload = some (payload_of rule eval_case);
}

abbrev pub preview_of : Template → ActionPolicyRule → PolicyRulePreview
preview_of t rule = record {
  rule_id = rule.id;
  summary = t.summary;
  scope = rule.scope;
  verdict = rule.effect.verdict;
  reasons = rule.effect.reasons;
  required_before = rule.effect.required_before;
}

abbrev pub compiled_of : List CompiledAtom → CompiledCorrection
compiled_of atoms = record {
  policy_rules = map (λ c. c.rule) atoms;
  enforcement_actions = map (λ c. c.enforcement) atoms;
  eval_cases = map (λ c. c.eval_case) atoms;
  preview = map (λ c. c.preview) atoms;
}

abbrev parse_originating : Zod → Option InterceptedAction → Result (Option InterceptedAction)
parse_originating zod none = Result.ok none
parse_originating zod (some a) = keep (parse_action zod a)
  where
    keep : Result InterceptedAction → Result (Option InterceptedAction)
    keep (Result.ok b) = Result.ok (some b)
    keep (Result.err message) = Result.err message

module _ (zod : Zod) (casing : Casing) (deps : Deps) where
  -- What is made of a rule: its case, its enforcement and its preview.
  unfoldable pub around_rule :
      CorrectionEvent → Template → String → ActionPolicyRule → Effect Journal CompiledAtom
  around_rule correction t action_id rule = do
    graded_at ← now deps
    eval_case ← lift (parse_eval_case zod (compiled_case correction t rule graded_at))
    enforced_at ← now deps
    enforcement ← lift (
        parse_enforcement zod
          (compiled_enforcement correction rule eval_case action_id enforced_at))
    return (record {
      rule = rule;
      enforcement = enforcement;
      eval_case = eval_case;
      preview = preview_of t rule;
    })

  -- One round of the loop.
  unfoldable pub compile_atom :
      CorrectionEvent → Option InterceptedAction → String → Effect Journal CompiledAtom
  compile_atom correction originating atom = do
    t ← lift (template_for casing atom originating)
    rule_id ← next_id deps
    eval_case_id ← next_id deps
    action_id ← next_id deps
    created_at ← now deps
    rule ←
        lift
          (parse_rule zod (compiled_rule correction originating t rule_id eval_case_id created_at))
    around_rule correction t action_id rule

  abbrev pub compile_atoms :
      CorrectionEvent → Option InterceptedAction → List String → Effect Journal CompiledCorrection
  compile_atoms correction originating [] =
      throw
        "correction is empty; provide a concrete rule such as 'never merge without both reviewers approving'"
  compile_atoms correction originating (atom ∷ atoms) = do
    parsed ← lift (parse_originating zod originating)
    compiled ← for_each (compile_atom correction parsed) (atom ∷ atoms)
    return (compiled_of compiled)

  unfoldable pub compile_correction :
      CorrectionEvent → Option InterceptedAction → Effect Journal CompiledCorrection
  compile_correction correction originating =
      compile_atoms correction originating (atomic_corrections correction.correction)
