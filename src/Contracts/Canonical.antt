-- ===== src/Contracts/Canonical.antt =====
-- packages/contracts/src: the canonical projections of the contracts, over which their
-- hashes are taken.
mod Reading
pub mod Gate
pub mod Obligation
pub mod Intercepted
use liminal_engine.Prelude.{String, map, List, [], ◌∷◌}
use liminal_engine.Contracts.Value.{Value, Items, Fields}
use liminal_engine.Contracts.PolicyRule.{EnforcementActionType}
use liminal_engine.Contracts.Audit.{optional_field, string_array}
use liminal_engine.Contracts.ActionGate.{GateVerdict, ActionGateSource, ActionGate}
use liminal_engine.Contracts.ApprovalGate.{ApprovalStatus, ApprovalRecord, ApprovalGate}
use liminal_engine.Contracts.Requirement.{
  RequirementSeverity, RequirementStatus, RequirementCreatedBy, Requirement,
}

abbrev pub verdict_text : GateVerdict → String
verdict_text GateVerdict.allow = "allow"
verdict_text GateVerdict.deny = "deny"

abbrev pub source_text : ActionGateSource → String
source_text ActionGateSource.operator = "operator"
source_text ActionGateSource.policy = "policy"
source_text ActionGateSource.scope = "scope"
source_text ActionGateSource.default_deny = "default-deny"

abbrev pub gate_tail : ActionGate → Fields
gate_tail g =
    optional_field "source" (λ s. Value.string (source_text s)) g.source
      (optional_field "source_rule_id" Value.string g.source_rule_id Fields.empty)

-- `actionGateContract.canonical`
unfoldable pub action_gate_canonical : ActionGate → Fields
action_gate_canonical g = Fields.field "schema" (Value.string "liminal_engine.action_gate.v2") (
    Fields.field "id" (Value.string g.id) (
      Fields.field "case_id" (Value.string g.case_id) (
        Fields.field "action" (Value.string g.action) (
          Fields.field "verdict" (Value.string (verdict_text g.verdict)) (
            Fields.field "reasons" (string_array g.reasons) (
              Fields.field "required_before_send" (string_array g.required_before_send)
                (gate_tail g)))))))

abbrev pub severity_text : RequirementSeverity → String
severity_text RequirementSeverity.hard = "hard"
severity_text RequirementSeverity.soft = "soft"
severity_text RequirementSeverity.info = "info"

abbrev pub requirement_status_text : RequirementStatus → String
requirement_status_text RequirementStatus.proposed = "proposed"
requirement_status_text RequirementStatus.active = "active"
requirement_status_text RequirementStatus.rejected = "rejected"
requirement_status_text RequirementStatus.retired = "retired"

abbrev pub created_by_text : RequirementCreatedBy → String
created_by_text RequirementCreatedBy.operator = "operator"
created_by_text RequirementCreatedBy.bulk_import = "import"
created_by_text RequirementCreatedBy.proposal = "proposal"

-- `requirementContract.canonical`
unfoldable pub requirement_canonical : Requirement → Fields
requirement_canonical r = Fields.field "schema" (Value.string "liminal_engine.requirement.v1") (
    Fields.field "id" (Value.string r.id) (
      Fields.field "goal_id" (Value.string r.goal_id) (
        Fields.field "deal_id" (Value.string r.deal_id) (
          Fields.field "text" (Value.string r.text) (
            Fields.field "owner_role" (Value.string r.owner_role) (
              Fields.field "severity" (Value.string (severity_text r.severity)) (
                Fields.field "scope" (string_array r.scope) (
                  Fields.field "status" (Value.string (requirement_status_text r.status)) (
                    Fields.field "created_by" (Value.string (created_by_text r.created_by)) (
                      Fields.field "evidence_refs" (string_array r.evidence_refs) (
                        Fields.field "created_at" (Value.string r.created_at) (
                          optional_field "approved_by" Value.string r.approved_by (
                            optional_field "activated_at" Value.string r.activated_at
                              Fields.empty)))))))))))))

abbrev approval_status_text : ApprovalStatus → String
approval_status_text ApprovalStatus.pending = "pending"
approval_status_text ApprovalStatus.approved = "approved"
approval_status_text ApprovalStatus.rejected = "rejected"
approval_status_text ApprovalStatus.escalated = "escalated"

abbrev approval_fields : ApprovalRecord → Fields
approval_fields a = Fields.field "id" (Value.string a.id) (
    Fields.field "approver" (Value.string a.approver) (
      Fields.field "status" (Value.string (approval_status_text a.status)) (
        optional_field "reasoning" Value.string a.reasoning
          (Fields.field "recorded_at" (Value.string a.recorded_at) Fields.empty))))

abbrev approval_items : List ApprovalRecord → Items
approval_items [] = Items.nil
approval_items (a ∷ approvals) =
    Items.cons (Value.object (approval_fields a)) (approval_items approvals)

-- `approvalGateContract.canonical`
unfoldable pub approval_gate_canonical : ApprovalGate → Fields
approval_gate_canonical g = Fields.field "schema" (Value.string "liminal_engine.approval_gate.v1") (
    Fields.field "id" (Value.string g.id) (
      Fields.field "case_id" (Value.string g.case_id) (
        Fields.field "deal_id" (Value.string g.deal_id) (
          Fields.field "policy_rule_id" (Value.string g.policy_rule_id) (
            Fields.field "approval_context" (Value.string g.approval_context) (
              Fields.field "required_approvers" (string_array g.required_approvers) (
                Fields.field "approvals" (Value.array (approval_items g.approvals)) (
                  Fields.field "created_at" (Value.string g.created_at) (
                    Fields.field "updated_at" (Value.string g.updated_at) (
                      Fields.field "gate_keeper" (Value.string g.gate_keeper) Fields.empty))))))))))
