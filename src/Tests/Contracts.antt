-- ===== src/Tests/Contracts.antt =====
-- packages/contracts and the redaction of packages/governance on concrete values.
use liminal_engine.Prelude.{
  String, ◌==◌, eq_iff, ◌≡◌, ◌≢◌, refl, ◌↔◌, true, not, none, some, [], ◌∷◌, all, has, ◌&&◌,
}
use mathlib.Core.Bool.{false≢true}
use liminal_engine.Prelude.Int.{pos}
use liminal_engine.Contracts.Value.{Value, Fields}
use liminal_engine.Contracts.CanonicalHash.{canonical_hash}
use liminal_engine.Contracts.CanonicalHash.Stringify.{stable_stringify}
use liminal_engine.Contracts.CanonicalHash.KeyOrder.{object, swap, stable_stringify-SameValue}
use liminal_engine.Contracts.Redact.{redact, is_redacted_ref}
use liminal_engine.Contracts.Redact.Laws.{verify_reference, verify_redaction_iff}
use liminal_engine.Contracts.ActionGate.{
  GateVerdict, ActionGate, is_allow, is_valid_action_gate, is_allowed, action_gate_decision,
  allowances_agree,
}
use liminal_engine.Contracts.ApprovalGate.{
  ApprovalStatus, ApprovalRecord, ApprovalGate, is_blocking, approved_roles, is_valid_approval_gate,
  is_fully_approved, is_fully_approved-eq,
}
use liminal_engine.Contracts.Canonical.{action_gate_canonical}
use liminal_engine.Contracts.Canonical.Gate.{gate_of, gate_of-action_gate_canonical}
use liminal_engine.Tests.Fixtures.{zod}

abbrev two : Value
two = Value.number (pos 2)

abbrev ada : Value
ada = Value.string "Ada"

-- { b: 2, a: "Ada" } and { a: "Ada", b: 2 }
abbrev one_order : Value
one_order = Value.object (Fields.field "b" two (Fields.field "a" ada Fields.empty))

abbrev other_order : Value
other_order = Value.object (Fields.field "a" ada (Fields.field "b" two Fields.empty))

abbrev first_key : String
first_key = "b"

abbrev second_key : String
second_key = "a"

keys_differ : first_key ≢ second_key
keys_differ h =
    let claimed : (first_key == second_key) ≡ true = (eq_iff first_key second_key).1 h in
    false≢true claimed

stable_stringify-SameValue_example : stable_stringify one_order ≡ stable_stringify other_order
stable_stringify-SameValue_example =
    stable_stringify-SameValue one_order other_order
      (object (swap first_key second_key two ada Fields.empty keys_differ))

verify_redaction_iff_example :
    (verify_reference (redact ada (some "name")) two ≡ true)
    ↔ (canonical_hash two ≡ canonical_hash ada)
verify_redaction_iff_example =
    verify_redaction_iff ada two (some "name") (unfold is_redacted_ref in refl)

-- { customerData: "Ada", status: 2 }
abbrev snapshot : Fields
snapshot = Fields.field "customerData" ada (Fields.field "status" two Fields.empty)

abbrev held : ActionGate
held = record {
  id = "ag_acme_update";
  case_id = "gc_acme_eu";
  action = "Send customer-facing status update to Acme";
  verdict = GateVerdict.deny;
  reasons = "open case" ∷ [];
  required_before_send = "pass the eval" ∷ [];
  source = none;
  source_rule_id = none;
}

allowances_agree_example :
    (is_allowed held ≡ is_allow held.verdict)
    × ((action_gate_decision held).allowed ≡ is_allow held.verdict)
allowances_agree_example = allowances_agree held (unfold is_valid_action_gate in refl)

abbrev approval : String → ApprovalStatus → ApprovalRecord
approval role status = record {
  id = "appr_1";
  approver = role;
  status = status;
  reasoning = none;
  recorded_at = "2026-06-27T10:00:00.000Z";
}

-- Product approved twice, and Security once.
abbrev release : ApprovalGate
release = record {
  id = "gate_1";
  case_id = "gc_acme_eu";
  deal_id = "deal_acme";
  policy_rule_id = "pr_1";
  approval_context = "Release Acme on-track update";
  required_approvers = "Product" ∷ "Security" ∷ [];
  approvals =
      approval "Product" ApprovalStatus.approved
      ∷ approval "Product" ApprovalStatus.approved
      ∷ approval "Security" ApprovalStatus.approved
      ∷ [];
  created_at = "2026-06-27T10:00:00.000Z";
  updated_at = "2026-06-27T10:00:00.000Z";
  gate_keeper = "VP Ops";
}

is_fully_approved-eq_example : is_fully_approved release ≡ (
    all (λ a. not (is_blocking a)) release.approvals
    && all (λ role. has role (approved_roles release.approvals)) release.required_approvers)
is_fully_approved-eq_example =
    is_fully_approved-eq zod release (unfold is_valid_approval_gate in refl)

gate_of-action_gate_canonical_example : gate_of (action_gate_canonical held) ≡ held
gate_of-action_gate_canonical_example = gate_of-action_gate_canonical held
