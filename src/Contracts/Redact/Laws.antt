-- ===== src/Contracts/Redact/Laws.antt =====
-- About packages/contracts/src/redact.ts and packages/governance/src/redact.ts.
use liminal_engine.Prelude.{
  String, ◌==◌, eq_iff, eq_refl, ◌≡◌, refl, sym, ◌↔◌, inl, inr, Bool, true, false, not, ◌&&◌, ◌||◌,
  Option, some, arith, Bool-cases,
}
use liminal_engine.Contracts.Value.{Value, Fields, get}
use liminal_engine.Contracts.CanonicalHash.{canonical_hash}
use liminal_engine.Contracts.Redact.{
  is_sensitive, is_redacted_ref, redact, verify_redaction, redact_audit_snapshot,
}

-- `verifyRedaction` of a value that is a reference.
abbrev pub verify_reference : Value → Value → Bool
verify_reference (Value.object ref) raw_value = verify_redaction ref raw_value
verify_reference _ raw_value = false

redact-IsRedacted :
    (value : Value) (label : Option String) → is_redacted_ref (redact value label) ≡ true
unfolding redact
redact-IsRedacted value label = elim (Bool-cases (is_redacted_ref value)) [
  | inl e ↦ rw e e
  | inr e ↦ rw e (unfold is_redacted_ref in refl)
]

redact_of_ref :
    (value : Value) (label : Option String)
    → is_redacted_ref value ≡ true
    → redact value label ≡ value
unfolding redact
redact_of_ref value label h = rw h

-- Redacting a reference again, under any label, changes nothing.
redact_idempotent :
    (value : Value) (label other : Option String)
    → redact (redact value label) other ≡ redact value label
redact_idempotent value label other =
    redact_of_ref (redact value label) other (redact-IsRedacted value label)

-- The reference to a value that is itself no reference verifies against exactly the values with the
-- canonical hash of the redacted value.
pub verify_redaction_iff :
    (value candidate : Value) (label : Option String)
    → is_redacted_ref value ≡ false
    → (verify_reference (redact value label) candidate ≡ true)
      ↔ (canonical_hash candidate ≡ canonical_hash value)
unfolding redact verify_redaction
verify_redaction_iff value candidate label raw = rw raw (
  λ h. sym ((eq_iff (canonical_hash value) (canonical_hash candidate)).0 h),
  λ e. (eq_iff (canonical_hash value) (canonical_hash candidate)).1 (sym e),
)

-- Every value under a sensitive key is a reference.
abbrev pub has_no_raw : Fields → Bool
has_no_raw Fields.empty = true
has_no_raw (Fields.field key value rest) =
    (not (is_sensitive key) || is_redacted_ref value) && has_no_raw rest

-- In a redacted snapshot every value under a sensitive key is a reference.
pub redact_audit_snapshot-has_no_raw : (fs : Fields) → has_no_raw (redact_audit_snapshot fs) ≡ true
unfolding redact_audit_snapshot
redact_audit_snapshot-has_no_raw Fields.empty = refl
redact_audit_snapshot-has_no_raw (Fields.field key value rest) =
    ground (arith, redact_audit_snapshot-has_no_raw rest, redact-IsRedacted value (some key))

redact_audit_snapshot_of_clean :
    (fs : Fields) → has_no_raw fs ≡ true → redact_audit_snapshot fs ≡ fs
unfolding redact_audit_snapshot
redact_audit_snapshot_of_clean Fields.empty h = refl
redact_audit_snapshot_of_clean (Fields.field key value rest) h =
    ground (arith, redact_audit_snapshot_of_clean rest)

-- Redacting a snapshot again changes nothing.
redact_audit_snapshot_idempotent :
    (fs : Fields) → redact_audit_snapshot (redact_audit_snapshot fs) ≡ redact_audit_snapshot fs
redact_audit_snapshot_idempotent fs =
    redact_audit_snapshot_of_clean (redact_audit_snapshot fs) (redact_audit_snapshot-has_no_raw fs)

-- Under a key that is not sensitive a redacted snapshot holds what the snapshot held.
get-redact_audit_snapshot :
    (key : String) (fs : Fields)
    → is_sensitive key ≡ false
    → get key (redact_audit_snapshot fs) ≡ get key fs
unfolding redact_audit_snapshot
get-redact_audit_snapshot key Fields.empty h = refl
get-redact_audit_snapshot key (Fields.field k value rest) h = elim (Bool-cases (k == key)) [
  | inr other ↦ rw other (get-redact_audit_snapshot key rest h)
  | inl here ↦ let same : k ≡ key = (eq_iff k key).0 here in rw (same, eq_refl, h)
]
