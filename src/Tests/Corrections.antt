-- ===== src/Tests/Corrections.antt =====
-- The audit of a learned rule, the compiler of corrections and match-and-replace on the fixtures.
use liminal_engine.Prelude.{
  List, ◌↔◌, String, ◌≡◌, refl, true, false, none, [], ◌∷◌, Result, ok, All,
}
use liminal_engine.Prelude.Effect.{◌>>=◌}
use liminal_engine.Contracts.Parsing.{
  parse_rule, is_valid_rule, is_valid_scope, is_valid_effect, is_valid_condition, parse_audit_event,
  is_valid_audit_event, parse_eval_case, is_valid_eval_case, parse_enforcement,
  is_valid_enforcement,
}
use liminal_engine.Contracts.Value.{Value, Fields, read_path}
use liminal_engine.Contracts.Correction.{CorrectionEvent}
use liminal_engine.Contracts.Redact.{redact_audit_event_snapshots}
use liminal_engine.Governance.Ledger.{append, verify_chain, SealedAuditEvent}
use liminal_engine.Governance.Journal.{Journal, next_id, now, append_to_ledger}
use liminal_engine.Governance.PolicyAudit.{
  append_policy_rule_audit, ReconstructedPolicyRuleLifecycle,
}
use liminal_engine.Governance.PolicyAudit.Rebuilt.{IsRebuilt, append_policy_rule_audit-IsRebuilt}
use liminal_engine.Governance.Correction.Atoms.{atomic_corrections}
use liminal_engine.Governance.Correction.Atoms.Splitting.{Splits, split_atoms_iff}
use liminal_engine.Governance.Correction.Atoms.{split_atoms}
use liminal_engine.Governance.Correction.Phrases.{scope_for, template_for}
use liminal_engine.Governance.Correction.Compiler.{
  CompiledCorrection, around_rule, compile_atom, compile_correction,
}
use liminal_engine.Governance.Correction.Guarded.{IsGuarded, compile_correction-IsGuarded}
use liminal_engine.Gateway.MatchReplace.{write_path}
use liminal_engine.Gateway.MatchReplace.Writes.{Diverges, read_path-write_path}
use liminal_engine.Tests.Fixtures.{zod, casing, deps, who, deny_merge, got, ends_ok, opened}

abbrev journal : Journal
journal = record { ledger = []; calls = record { ids = 0; times = 0 } }

abbrev auditing : Result SealedAuditEvent × Journal
auditing = append_policy_rule_audit zod deps who deny_merge journal

abbrev unsealed : SealedAuditEvent
unsealed = record { event = opened; event_hash = "" }

abbrev sealed : SealedAuditEvent
sealed = got unsealed auditing.0

audits : auditing ≡ (ok sealed, auditing.1)
unfolding append_policy_rule_audit parse_rule is_valid_rule is_valid_scope is_valid_effect
    is_valid_condition parse_audit_event is_valid_audit_event append next_id now append_to_ledger
    redact_audit_event_snapshots ◌>>=◌
audits = ends_ok unsealed auditing refl

append_policy_rule_audit-IsRebuilt_example :
    (r : ReconstructedPolicyRuleLifecycle) × IsRebuilt zod [] auditing.1.ledger deny_merge sealed r
unfolding verify_chain
append_policy_rule_audit-IsRebuilt_example =
    append_policy_rule_audit-IsRebuilt zod deps who deny_merge journal auditing.1 sealed refl audits

abbrev correction : CorrectionEvent
correction = record {
  id = "corr_1";
  case_id = "gc_acme";
  deal_id = "deal_acme";
  correction = "never force push to main";
  deciding_actor = "VP Ops";
  corrected_at = "2026-06-27T10:00:00.000Z";
}

abbrev compiling : Result CompiledCorrection × Journal
compiling = compile_correction zod casing deps correction none journal

abbrev uncompiled : CompiledCorrection
uncompiled = record { policy_rules = []; eval_cases = []; enforcement_actions = []; preview = [] }

abbrev compiled : CompiledCorrection
compiled = got uncompiled compiling.0

compiles : compiling ≡ (ok compiled, compiling.1)
unfolding compile_correction ◌>>=◌ atomic_corrections compile_atom template_for next_id now
    parse_rule is_valid_rule is_valid_scope scope_for is_valid_effect around_rule parse_eval_case
    is_valid_eval_case parse_enforcement is_valid_enforcement
compiles = ends_ok uncompiled compiling refl

compile_correction-IsGuarded_example : All (IsGuarded zod correction) compiled.policy_rules
compile_correction-IsGuarded_example =
    compile_correction-IsGuarded zod casing deps correction none journal compiling.1 compiled
      compiles

abbrev reviews : Fields
reviews = Fields.field "reviews" (Value.boolean false) Fields.empty

read_path-write_path_example :
    (read_path
        (Value.object (write_path reviews ("reviews" ∷ "approved" ∷ []) (Value.boolean true)))
        ("reviews" ∷ "approved" ∷ [])
      ≡ Value.boolean true)
    × ((others : List String)
        → Diverges ("reviews" ∷ "approved" ∷ []) others
        → read_path
            (Value.object (write_path reviews ("reviews" ∷ "approved" ∷ []) (Value.boolean true)))
            others
          ≡ read_path (Value.object reviews) others)
read_path-write_path_example =
    read_path-write_path "reviews" ("approved" ∷ []) (Value.boolean true) reviews (refl, (refl, tt))

split_atoms_iff_example :
    Splits "a; B then c" ("a" ∷ " B" ∷ "c" ∷ [])
    ↔ ("a" ∷ " B" ∷ "c" ∷ [] ≡ split_atoms "a; B then c")
split_atoms_iff_example = split_atoms_iff "a; B then c" ("a" ∷ " B" ∷ "c" ∷ [])
