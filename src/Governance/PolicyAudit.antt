-- ===== src/Governance/PolicyAudit.antt =====
-- packages/governance/src/policy-audit.ts: the audit events of policy verdicts and of learned rules,
-- and a rule's lifecycle from those events alone.
pub mod Rebuilt
pub mod Verdicts
use liminal_engine.Prelude.{
  String, template, ◌==◌, Bool, false, ◌||◌, Option, none, some, or_else, List, [], ◌∷◌, ◌++◌, map,
  get_last?, Result, ok, err, if◌then◌else◌,
}
use liminal_engine.Prelude.Effect.{Effect, lift, ◌>>=◌, ◌>>◌}
use liminal_engine.Contracts.Value.{Value, Fields, get}
use liminal_engine.Contracts.Action.{InterceptedAction}
use liminal_engine.Contracts.PolicyRule.{ActionPolicyRule, RuleStatus}
use liminal_engine.Contracts.Audit.{DealStatus, AuditEvent, optional_field, string_array}
use liminal_engine.Contracts.Zod.{Zod}
use liminal_engine.Contracts.Parsing.{parse_action, parse_rule}
use liminal_engine.Contracts.Canonical.Intercepted.{rule_verdict_text, rule_status_text}
use liminal_engine.Contracts.Objects.{action_value, rule_value}
use liminal_engine.Contracts.Objects.Reading.{read_rule}
use liminal_engine.Policy.Decision.{DecisionSource, PolicyDecision}
use liminal_engine.Governance.Ledger.{SealedAuditEvent, verify_chain}
use liminal_engine.Governance.Journal.{Journal, Deps, next_id, now, append_to_ledger}

-- Who an audit event is recorded for.
pub record Deciding : Type 0 where
  pub case_id : String
  pub deal_id : String
  pub deciding_actor : String

abbrev pub decision_source_text : DecisionSource → String
decision_source_text DecisionSource.operator = "operator"
decision_source_text DecisionSource.policy = "policy"
decision_source_text DecisionSource.scope = "scope"
decision_source_text DecisionSource.default_deny = "default-deny"

-- `afterState.policyVerdict`
abbrev verdict_value : PolicyDecision → Option String → Value
verdict_value d from_correction_id = Value.object (
    Fields.field "verdict" (Value.string (rule_verdict_text d.verdict)) (
      Fields.field "allowed" (Value.boolean d.allowed) (
        Fields.field "reasons" (string_array d.reasons) (
          Fields.field "requiredBeforeSend" (string_array d.required_before_send) (
            Fields.field "source" (Value.string (decision_source_text d.source)) (
              optional_field "sourceRuleId" Value.string d.source_rule_id (
                optional_field "fromCorrectionId" Value.string from_correction_id
                  Fields.empty)))))))

abbrev pub optional_item : Option String → List String → List String
optional_item none rest = rest
optional_item (some s) rest = s ∷ rest

abbrev pub verdict_event :
    Deciding → InterceptedAction → PolicyDecision → Option String → String → String → AuditEvent
verdict_event who action d from_correction_id id at = record {
  id = id;
  case_id = who.case_id;
  deal_id = who.deal_id;
  action = "policy.verdict";
  deciding_actor = who.deciding_actor;
  previous_status = DealStatus.at_risk;
  new_status = DealStatus.at_risk;
  recorded_at = at;
  before_state = some (Fields.field "interceptedAction" (action_value action) Fields.empty);
  after_state =
      some (Fields.field "policyVerdict" (verdict_value d from_correction_id) Fields.empty);
  evidence_ids =
      some (action.id ∷ optional_item d.source_rule_id (optional_item from_correction_id []));
  action_ids = none;
  eval_ids = none;
  affected_systems = none;
  prev_hash = none;
}

abbrev pub rule_event : Deciding → ActionPolicyRule → String → String → AuditEvent
rule_event who rule id at = record {
  id = id;
  case_id = who.case_id;
  deal_id = who.deal_id;
  action = template ("policy.rule." ∷ rule_status_text rule.status ∷ []);
  deciding_actor = who.deciding_actor;
  previous_status = DealStatus.at_risk;
  new_status = DealStatus.at_risk;
  recorded_at = at;
  before_state = none;
  after_state = some (Fields.field "policyRule" (rule_value rule) Fields.empty);
  evidence_ids = some (rule.id ∷ rule.from_correction_id ∷ rule.eval_case_id ∷ []);
  action_ids = none;
  eval_ids = some (rule.eval_case_id ∷ []);
  affected_systems = none;
  prev_hash = none;
}

module _ (zod : Zod) (deps : Deps) where
  -- The event is built with the next id, then the time, and appended.
  abbrev pub append_event : (String → String → AuditEvent) → Effect Journal SealedAuditEvent
  append_event event = do id ← next_id deps; at ← now deps; append_to_ledger zod (event id at)

  unfoldable pub append_policy_verdict_audit :
      Deciding
      → InterceptedAction
      → PolicyDecision
      → Option String
      → Effect Journal SealedAuditEvent
  append_policy_verdict_audit who raw_action d from_correction_id = do
    action ← lift (parse_action zod raw_action)
    append_event (verdict_event who action d from_correction_id)

  unfoldable pub append_policy_rule_audit :
      Deciding → ActionPolicyRule → Effect Journal SealedAuditEvent
  append_policy_rule_audit who raw_rule = do
    rule ← lift (parse_rule zod raw_rule)
    append_event (rule_event who rule)

pub record ReconstructedPolicyRuleLifecycle : Type 0 where
  pub rule_id : String
  pub current_status : RuleStatus
  pub versions : List ActionPolicyRule
  pub timeline : List SealedAuditEvent

-- `readPolicyRule`
unfoldable pub read_policy_rule : Zod → Option Fields → Option ActionPolicyRule
read_policy_rule zod none = none
read_policy_rule zod (some state) = read_rule zod (get "policyRule" state)

abbrev is_id : String → Option String → Bool
is_id id none = false
is_id id (some s) = s == id

abbrev pub concerns : String → ActionPolicyRule → Bool
concerns rule_id rule = rule.id == rule_id || is_id rule_id rule.supersedes_id

abbrev add_version :
    String
    → SealedAuditEvent
    → Option ActionPolicyRule
    → List (ActionPolicyRule × SealedAuditEvent)
    → List (ActionPolicyRule × SealedAuditEvent)
add_version rule_id e none rest = rest
add_version rule_id e (some rule) rest = if concerns rule_id rule then (rule, e) ∷ rest else rest

-- What the loop pushes to `versions` and to `timeline`, in pairs.
unfoldable pub rule_versions :
    Zod → String → List SealedAuditEvent → List (ActionPolicyRule × SealedAuditEvent)
rule_versions zod rule_id [] = []
rule_versions zod rule_id (e ∷ events) =
    add_version rule_id e (read_policy_rule zod e.event.after_state)
      (rule_versions zod rule_id events)

abbrev pub rebuilt :
    String
    → List (ActionPolicyRule × SealedAuditEvent)
    → Option (ActionPolicyRule × SealedAuditEvent)
    → Result ReconstructedPolicyRuleLifecycle
rebuilt rule_id found none = err (template ("no AuditEvents found for policy rule " ∷ rule_id ∷ []))
rebuilt rule_id found (some (rule, e)) = ok (record {
  rule_id = rule_id;
  current_status = rule.status;
  versions = map (λ p. p.0) found;
  timeline = map (λ p. p.1) found;
})

unfoldable pub reconstruct_policy_rule_lifecycle :
    Zod → List SealedAuditEvent → String → Result ReconstructedPolicyRuleLifecycle
reconstruct_policy_rule_lifecycle zod events rule_id =
    let verdict = verify_chain events in
    let found = rule_versions zod rule_id events in
    if verdict.valid
    then rebuilt rule_id found (get_last? found)
    else err (
        template (
          "cannot reconstruct policy rule: audit chain is invalid ("
          ∷ or_else verdict.reason "broken chain"
          ∷ ")"
          ∷ []))
