-- ===== src/Contracts/Redact.antt =====
-- packages/contracts/src/redact.ts and packages/governance/src/redact.ts: sensitive values are kept
-- by reference, and the snapshots of an audit event are redacted key by key.
pub mod Laws
use liminal_engine.Prelude.{
  String, ◌==◌, Bool, true, false, not, ◌&&◌, ◌||◌, Option, none, some, List, [], ◌∷◌, any,
  if◌then◌else◌,
}
use liminal_engine.Contracts.Value.{Value, Fields, get}
use liminal_engine.Contracts.CanonicalHash.{canonical_hash}
use liminal_engine.Contracts.Audit.{AuditEvent, optional_field}

abbrev pub redaction_scheme : String
redaction_scheme = "canonical-sha256"

abbrev is_true : Value → Bool
is_true (Value.boolean true) = true
is_true _ = false

abbrev is_text : String → Value → Bool
is_text s (Value.string t) = t == s
is_text s _ = false

abbrev is_string : Value → Bool
is_string (Value.string s) = true
is_string _ = false

unfoldable pub is_redacted_ref : Value → Bool
is_redacted_ref (Value.object fs) =
    is_true (get "redacted" fs)
    && is_text redaction_scheme (get "scheme" fs)
    && is_string (get "hash" fs)
is_redacted_ref _ = false

unfoldable pub redact : Value → Option String → Value
redact value label =
    if is_redacted_ref value
    then value
    else Value.object (
        Fields.field "redacted" (Value.boolean true) (
          Fields.field "scheme" (Value.string redaction_scheme) (
            Fields.field "hash" (Value.string (canonical_hash value))
              (optional_field "label" Value.string label Fields.empty))))

-- `ref.hash === canonicalHash(rawValue)`
unfoldable pub verify_redaction : Fields → Value → Bool
verify_redaction ref raw_value = is_text (canonical_hash raw_value) (get "hash" ref)

abbrev pub sensitive_audit_keys : List String
sensitive_audit_keys =
    "customerClaim" ∷ "customerData" ∷ "customerRecord" ∷ "personalData" ∷ "pii" ∷ []

unfoldable pub is_sensitive : String → Bool
is_sensitive key = any (λ k. k == key) sensitive_audit_keys

unfoldable pub redact_audit_snapshot : Fields → Fields
redact_audit_snapshot Fields.empty = Fields.empty
redact_audit_snapshot (Fields.field key value rest) =
    Fields.field key
      (if is_sensitive key && not (is_redacted_ref value) then redact value (some key) else value)
      (redact_audit_snapshot rest)

abbrev pub redact_optional : Option Fields → Option Fields
redact_optional none = none
redact_optional (some fs) = some (redact_audit_snapshot fs)

unfoldable pub redact_audit_event_snapshots : AuditEvent → AuditEvent
redact_audit_event_snapshots e = record e {
  before_state = redact_optional e.before_state;
  after_state = redact_optional e.after_state;
}
