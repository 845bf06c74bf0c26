-- ===== src/Governance/PolicyAudit/Rebuilt.antt =====
-- Audited rules come back from the ledger: packages/governance/src/policy-audit.ts.
use liminal_engine.Prelude.{
  String, eq_refl, ◌≡◌, refl, ap, ◌∙◌, true, Option, none, some, List, [], ◌∷◌, ◌++◌, map,
  get_last?-append, ok, inl, inr, Bool-cases,
}
use liminal_engine.Prelude.Effect.{◌>>=◌}
use liminal_engine.Prelude.Grown.{map-append}
use liminal_engine.Contracts.Action.{InterceptedAction}
use liminal_engine.Contracts.PolicyRule.{ActionPolicyRule}
use liminal_engine.Contracts.Audit.{AuditEvent}
use liminal_engine.Contracts.Zod.{Zod}
use liminal_engine.Contracts.Parsing.{parse_rule, is_valid_rule}
use liminal_engine.Contracts.Objects.Stored.{read_rule-rule_value}
use liminal_engine.Contracts.Redact.{
  is_sensitive, redact_audit_snapshot, redact_audit_event_snapshots,
}
use liminal_engine.Policy.Decision.{PolicyDecision}
use liminal_engine.Governance.Ledger.{SealedAuditEvent, AuditLedger, append, verify_chain}
use liminal_engine.Governance.Ledger.Chain.{append-verified, append-IsAppended}
use liminal_engine.Governance.Journal.{
  Journal, Deps, Extending, Extending->>=, Extending-lift, next_id, now, next_id-Extending,
  now-Extending, append_to_ledger-Extending, append_to_ledger-ok,
}
use liminal_engine.Governance.PolicyAudit.{
  Deciding, verdict_event, rule_event, append_event, append_policy_verdict_audit,
  append_policy_rule_audit, ReconstructedPolicyRuleLifecycle, read_policy_rule, concerns,
  add_version, rule_versions, reconstruct_policy_rule_lifecycle,
}

module _ (zod : Zod) (deps : Deps) where
  append_event-Extending :
      (event : String → String → AuditEvent) → Extending (append_event zod deps event)
  append_event-Extending event = Extending->>= _ _ (next_id-Extending deps) λ id.
      Extending->>= _ _ (now-Extending deps) λ at. append_to_ledger-Extending zod (event id at)

  pub append_policy_verdict_audit-Extending :
      (who : Deciding) (action : InterceptedAction) (d : PolicyDecision) (from : Option String)
      → Extending (append_policy_verdict_audit zod deps who action d from)
  unfolding append_policy_verdict_audit
  append_policy_verdict_audit-Extending who action d from =
      Extending->>= _ _ (Extending-lift _) λ a. append_event-Extending (verdict_event who a d from)

  pub append_policy_rule_audit-Extending :
      (who : Deciding) (rule : ActionPolicyRule)
      → Extending (append_policy_rule_audit zod deps who rule)
  unfolding append_policy_rule_audit
  append_policy_rule_audit-Extending who rule =
      Extending->>= _ _ (Extending-lift _) λ r. append_event-Extending (rule_event who r)

add_version-append :
    (id : String) (x : SealedAuditEvent) (found : Option ActionPolicyRule)
    (xs ys : List (ActionPolicyRule × SealedAuditEvent))
    → add_version id x found (xs ++ ys) ≡ add_version id x found xs ++ ys
add_version-append id x none xs ys = refl
add_version-append id x (some rule) xs ys = elim (Bool-cases (concerns id rule)) [
  | inl e ↦ rw e
  | inr e ↦ rw e
]

rule_versions-append :
    (zod : Zod) (id : String) (xs ys : List SealedAuditEvent)
    → rule_versions zod id (xs ++ ys) ≡ rule_versions zod id xs ++ rule_versions zod id ys
unfolding rule_versions
rule_versions-append zod id [] ys = refl
rule_versions-append zod id (x ∷ xs) ys =
    ap (add_version id x _) (rule_versions-append zod id xs ys)
    ∙ add_version-append id x _ (rule_versions zod id xs) (rule_versions zod id ys)

-- The event of a rule holds the rule, redacted or not.
read_policy_rule-event :
    (zod : Zod) (who : Deciding) (rule : ActionPolicyRule) (id at : String) (prev : Option String)
    → is_valid_rule zod rule ≡ true
    → read_policy_rule zod
        (redact_audit_event_snapshots
          (record (rule_event who rule id at) { prev_hash = prev })).after_state
      ≡ some rule
unfolding read_policy_rule redact_audit_event_snapshots redact_audit_snapshot is_sensitive
read_policy_rule-event zod who rule id at prev valid = read_rule-rule_value zod rule valid

-- What the reconstruction of `rule_id` gives after `sealed` recorded `rule` on top of `before`.
pub record IsRebuilt (zod : Zod) (before after : AuditLedger) (rule : ActionPolicyRule)
    (sealed : SealedAuditEvent) (r : ReconstructedPolicyRuleLifecycle) : Type 0 where
  pub rebuilds : reconstruct_policy_rule_lifecycle zod after rule.id ≡ ok r
  pub status : r.current_status ≡ rule.status
  pub versions : r.versions ≡ map (λ p. p.0) (rule_versions zod rule.id before) ++ rule ∷ []
  pub timeline : r.timeline ≡ map (λ p. p.1) (rule_versions zod rule.id before) ++ sealed ∷ []

pub append_event-ok :
    (zod : Zod) (deps : Deps) (event : String → String → AuditEvent) (j k : Journal)
    (sealed : SealedAuditEvent)
    → append_event zod deps event j ≡ (ok sealed, k)
    → (id : String) × (at : String) × (append zod j.ledger (event id at) ≡ ok (sealed, k.ledger))
unfolding next_id now ◌>>=◌
append_event-ok zod deps event j k sealed h =
    (_, _, append_to_ledger-ok zod (event _ _) _ k sealed h)

module _ (zod : Zod) (deps : Deps) (who : Deciding) (rule : ActionPolicyRule) (j k : Journal)
    (sealed : SealedAuditEvent) where
  -- A rule that was audited was valid, and its event was appended.
  audited :
      append_policy_rule_audit zod deps who rule j ≡ (ok sealed, k)
      → (is_valid_rule zod rule ≡ true)
        × (id : String) × (at : String) × (append zod j.ledger (rule_event who rule id at)
            ≡ ok (sealed, k.ledger))
  unfolding append_policy_rule_audit parse_rule ◌>>=◌
  audited h = elim (Bool-cases (is_valid_rule zod rule)) [
    | inr e ↦ let bad : _ = rw e at h in cc
    | inl e ↦
        let (id, at, appended) =
          append_event-ok zod deps (rule_event who rule) j k sealed (rw e at h) in
        (e, id, at, appended)
  ]

  found-audited :
      (id at : String)
      → is_valid_rule zod rule ≡ true
      → append zod j.ledger (rule_event who rule id at) ≡ ok (sealed, k.ledger)
      → rule_versions zod rule.id k.ledger
        ≡ rule_versions zod rule.id j.ledger ++ (rule, sealed) ∷ []
  unfolding rule_versions
  found-audited id at valid h =
      let added = append-IsAppended zod j.ledger _ sealed k.ledger h in
      let read : read_policy_rule zod sealed.event.after_state ≡ some rule =
        rw added.is_input (read_policy_rule-event zod who rule id at _ valid) in
      rw added.grown (
        rule_versions-append zod rule.id j.ledger (sealed ∷ [])
        ∙ ap (λ vs. rule_versions zod rule.id j.ledger ++ vs) (rw (read, eq_refl rule.id) refl))

  -- After a rule was audited in a ledger that verifies, its lifecycle is reconstructed from the
  -- ledger alone: the current status is the audited one, the versions are those that the ledger
  -- held before and then the audited rule, unchanged, and the timeline is their events and then
  -- the sealed one.
  pub append_policy_rule_audit-IsRebuilt :
      (verify_chain j.ledger).valid ≡ true
      → append_policy_rule_audit zod deps who rule j ≡ (ok sealed, k)
      → (r : ReconstructedPolicyRuleLifecycle) × IsRebuilt zod j.ledger k.ledger rule sealed r
  unfolding reconstruct_policy_rule_lifecycle
  append_policy_rule_audit-IsRebuilt valid h =
      let (is_valid, id, at, appended) = audited h in
      let found = found-audited id at is_valid appended in
      let verified = (append-verified zod j.ledger _ sealed k.ledger appended valid).1 in
      (
        record {
          rule_id = rule.id;
          current_status = rule.status;
          versions = map (λ p. p.0) (rule_versions zod rule.id j.ledger) ++ rule ∷ [];
          timeline = map (λ p. p.1) (rule_versions zod rule.id j.ledger) ++ sealed ∷ [];
        },
        record {
          rebuilds = rw (
            verified,
            found,
            get_last?-append,
            map-append (λ p. p.0) (rule_versions zod rule.id j.ledger) ((rule, sealed) ∷ []),
            map-append (λ p. p.1) (rule_versions zod rule.id j.ledger) ((rule, sealed) ∷ []),
          );
          status = refl;
          versions = refl;
          timeline = refl;
        },
      )
