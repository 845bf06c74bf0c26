-- ===== src/Contracts/Audit.antt =====
-- packages/contracts/src/audit-event.contract.ts: an audit event and its canonical projection.
use liminal_engine.Prelude.{String, Option, none, some, List, [], ◌∷◌}
use liminal_engine.Contracts.Value.{Value, Items, Fields}

-- packages/contracts/src/agent-output.contract.ts
pub data DealStatus : Type 0 where
  on_track at_risk : DealStatus

abbrev pub status_text : DealStatus → String
status_text DealStatus.on_track = "on-track"
status_text DealStatus.at_risk = "at-risk"

pub record AuditEvent : Type 0 where
  pub id : String
  pub case_id : String
  pub deal_id : String
  pub action : String
  pub deciding_actor : String
  pub previous_status : DealStatus
  pub new_status : DealStatus
  pub recorded_at : String
  pub before_state : Option Fields
  pub after_state : Option Fields
  pub evidence_ids : Option (List String)
  pub action_ids : Option (List String)
  pub eval_ids : Option (List String)
  pub affected_systems : Option (List String)
  pub prev_hash : Option String

-- `...(value !== undefined ? { key: value } : {})`
abbrev pub optional_field {ℓ} : {A : Type ℓ} → String → (A → Value) → Option A → Fields → Fields
optional_field key to_value none rest = rest
optional_field key to_value (some a) rest = Fields.field key (to_value a) rest

abbrev pub strings : List String → Items
strings [] = Items.nil
strings (s ∷ ss) = Items.cons (Value.string s) (strings ss)

abbrev pub string_array : List String → Value
string_array ss = Value.array (strings ss)

unfoldable pub audit_fields : AuditEvent → Fields
audit_fields e = Fields.field "schema" (Value.string "liminal_engine.audit_event.v1") (
    Fields.field "id" (Value.string e.id) (
      Fields.field "case_id" (Value.string e.case_id) (
        Fields.field "deal_id" (Value.string e.deal_id) (
          Fields.field "action" (Value.string e.action) (
            Fields.field "deciding_actor" (Value.string e.deciding_actor) (
              Fields.field "previous_status" (Value.string (status_text e.previous_status)) (
                Fields.field "new_status" (Value.string (status_text e.new_status)) (
                  Fields.field "recorded_at" (Value.string e.recorded_at) (
                    optional_field "before_state" Value.object e.before_state (
                      optional_field "after_state" Value.object e.after_state (
                        optional_field "evidence_ids" string_array e.evidence_ids (
                          optional_field "action_ids" string_array e.action_ids (
                            optional_field "eval_ids" string_array e.eval_ids (
                              optional_field "affected_systems" string_array e.affected_systems (
                                optional_field "prev_hash" Value.string e.prev_hash
                                  Fields.empty)))))))))))))))

-- `auditEventContract.canonical`
unfoldable pub audit_canonical : AuditEvent → Value
unfolding audit_fields
audit_canonical e = Value.object (audit_fields e)
