-- ===== src/Governance/PolicyAudit/Verdicts.antt =====
-- What the event of `appendPolicyVerdictAudit` says: packages/governance/src/policy-audit.ts.
use liminal_engine.Prelude.{
  String, ◌≡◌, refl, sym, subst, Option, none, some, List, [], ◌∷◌, ◌++◌, ok, inl, inr, Bool-cases,
}
use liminal_engine.Prelude.Effect.{◌>>=◌}
use liminal_engine.Contracts.Value.{Value, Fields, get}
use liminal_engine.Contracts.Action.{InterceptedAction}
use liminal_engine.Contracts.Audit.{AuditEvent, optional_field}
use liminal_engine.Contracts.Zod.{Zod}
use liminal_engine.Contracts.Parsing.{parse_action, is_valid_action}
use liminal_engine.Contracts.Objects.{action_value, read_enum, read_texts}
use liminal_engine.Contracts.Objects.Reading.{verdicts}
use liminal_engine.Contracts.Objects.Stored.{read_verdict-text, read_items-strings}
use liminal_engine.Contracts.Redact.{
  is_sensitive, redact_audit_snapshot, redact_audit_event_snapshots,
}
use liminal_engine.Policy.Decision.{DecisionSource, PolicyDecision}
use liminal_engine.Governance.Ledger.{SealedAuditEvent}
use liminal_engine.Governance.Ledger.Chain.{append-IsAppended}
use liminal_engine.Governance.Journal.{Journal, Deps}
use liminal_engine.Governance.PolicyAudit.{
  Deciding, decision_source_text, optional_item, verdict_event, append_policy_verdict_audit,
}
use liminal_engine.Governance.PolicyAudit.Rebuilt.{append_event-ok}

-- The decision sources by their names.
abbrev pub sources : List (String × DecisionSource)
sources =
    ("operator", DecisionSource.operator)
    ∷ ("policy", DecisionSource.policy)
    ∷ ("scope", DecisionSource.scope)
    ∷ ("default-deny", DecisionSource.default_deny)
    ∷ []

read_source-text :
    (s : DecisionSource) → read_enum sources (Value.string (decision_source_text s)) ≡ some s
read_source-text DecisionSource.operator = refl
read_source-text DecisionSource.policy = refl
read_source-text DecisionSource.scope = refl
read_source-text DecisionSource.default_deny = refl

-- A text, or what a missing key reads as.
abbrev pub text_or_undefined : Option String → Value
text_or_undefined none = Value.undefined
text_or_undefined (some s) = Value.string s

-- The fields of a verdict's object say what was decided.
pub record SaysDecision (d : PolicyDecision) (from : Option String) (said : Fields) : Type 0 where
  pub verdict : read_enum verdicts (get "verdict" said) ≡ some d.verdict
  pub allowed : get "allowed" said ≡ Value.boolean d.allowed
  pub reasons : read_texts (get "reasons" said) ≡ some d.reasons
  pub required : read_texts (get "requiredBeforeSend" said) ≡ some d.required_before_send
  pub source : read_enum sources (get "source" said) ≡ some d.source
  pub source_rule_id : get "sourceRuleId" said ≡ text_or_undefined d.source_rule_id
  pub from_correction_id : get "fromCorrectionId" said ≡ text_or_undefined from

-- An audit event that records the decision `d` on the action.
pub record IsVerdictEvent (who : Deciding) (action : InterceptedAction) (d : PolicyDecision)
    (from : Option String) (e : AuditEvent) : Type 0 where
  pub name : e.action ≡ "policy.verdict"
  pub case_id : e.case_id ≡ who.case_id
  pub deal_id : e.deal_id ≡ who.deal_id
  pub deciding_actor : e.deciding_actor ≡ who.deciding_actor
  pub on_action :
      e.before_state ≡ some (Fields.field "interceptedAction" (action_value action) Fields.empty)
  pub said : Fields
  pub after : e.after_state ≡ some (Fields.field "policyVerdict" (Value.object said) Fields.empty)
  pub says : SaysDecision d from said
  pub evidence :
      e.evidence_ids ≡ some (action.id ∷ optional_item d.source_rule_id (optional_item from []))

get_source_rule :
    (s f : Option String)
    → get "sourceRuleId" (
        optional_field "sourceRuleId" Value.string s
          (optional_field "fromCorrectionId" Value.string f Fields.empty))
      ≡ text_or_undefined s
get_source_rule (some s) f = refl
get_source_rule none none = refl
get_source_rule none (some f) = refl

get_from_correction :
    (s f : Option String)
    → get "fromCorrectionId" (
        optional_field "sourceRuleId" Value.string s
          (optional_field "fromCorrectionId" Value.string f Fields.empty))
      ≡ text_or_undefined f
get_from_correction none none = refl
get_from_correction none (some f) = refl
get_from_correction (some s) none = refl
get_from_correction (some s) (some f) = refl

verdict_event-IsVerdictEvent :
    (who : Deciding) (action : InterceptedAction) (d : PolicyDecision) (from : Option String)
    (id at : String) (prev : Option String)
    → IsVerdictEvent who action d from (
        redact_audit_event_snapshots
          (record (verdict_event who action d from id at) { prev_hash = prev }))
unfolding redact_audit_event_snapshots redact_audit_snapshot is_sensitive
verdict_event-IsVerdictEvent who action d from id at prev = record {
  name = refl;
  case_id = refl;
  deal_id = refl;
  deciding_actor = refl;
  on_action = refl;
  said = _;
  after = refl;
  says = record {
    verdict = read_verdict-text d.verdict;
    allowed = refl;
    reasons = read_items-strings d.reasons;
    required = read_items-strings d.required_before_send;
    source = read_source-text d.source;
    source_rule_id = get_source_rule d.source_rule_id from;
    from_correction_id = get_from_correction d.source_rule_id from;
  };
  evidence = refl;
}

-- An audited verdict is the one event added, and it says what was decided.
pub append_policy_verdict_audit-ok :
    (zod : Zod) (deps : Deps) (who : Deciding) (action : InterceptedAction) (d : PolicyDecision)
    (from : Option String) (j k : Journal) (sealed : SealedAuditEvent)
    → append_policy_verdict_audit zod deps who action d from j ≡ (ok sealed, k)
    → (k.ledger ≡ j.ledger ++ sealed ∷ []) × IsVerdictEvent who action d from sealed.event
unfolding append_policy_verdict_audit parse_action ◌>>=◌
append_policy_verdict_audit-ok zod deps who action d from j k sealed h =
    elim (Bool-cases (is_valid_action zod action)) [
      | inr e ↦ let bad : _ = rw e at h in cc
      | inl e ↦
          let (id, at, made) =
            append_event-ok zod deps (verdict_event who action d from) j k sealed (rw e at h) in
          let added = append-IsAppended zod j.ledger _ sealed k.ledger made in
          (
            added.grown,
            subst (λ a. IsVerdictEvent who action d from a) (sym added.is_input)
                (verdict_event-IsVerdictEvent who action d from id at _),
          )
    ]
