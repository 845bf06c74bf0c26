-- ===== src/Governance/Ledger.antt =====
-- packages/governance/src/audit-ledger.ts: the append-only, hash-chained audit ledger.
pub mod Chain
pub mod Tamper
pub mod Lifecycle
use liminal_engine.Prelude.{
  ℕ, ◌+◌, eqb, String, template, number_text, ◌==◌, Bool, true, false, not, Option, none, some,
  or_else, List, [], ◌∷◌, ◌++◌, length, get_last?, Result, ok, err, ◌>>=◌, if◌then◌else◌,
}
use liminal_engine.Contracts.Zod.{Zod}
use liminal_engine.Contracts.Audit.{AuditEvent, audit_canonical}
use liminal_engine.Contracts.Parsing.{parse_audit_event}
use liminal_engine.Contracts.Redact.{redact_audit_event_snapshots}
use liminal_engine.Contracts.CanonicalHash.{canonical_hash}

pub record SealedAuditEvent : Type 0 where
  pub event : AuditEvent
  pub event_hash : String

unfoldable pub hash_event : AuditEvent → String
hash_event e = canonical_hash (audit_canonical e)

abbrev pub genesis : String
genesis = "genesis"

-- The private field `#chain`.
abbrev pub AuditLedger : Type 0
AuditLedger = List SealedAuditEvent

abbrev pub tail_hash : String → Option SealedAuditEvent → String
tail_hash start none = start
tail_hash start (some sealed) = sealed.event_hash

abbrev seal : AuditEvent → SealedAuditEvent
seal event = record { event = event; event_hash = hash_event event }

-- `append`: the sealed event and the ledger after it, or what the contract's parse throws.
unfoldable pub append : Zod → AuditLedger → AuditEvent → Result (SealedAuditEvent × AuditLedger)
append zod chain input = do
  event ← parse_audit_event zod (
      redact_audit_event_snapshots
        (record input { prev_hash = some (tail_hash genesis (get_last? chain)) }))
  ok (seal event, chain ++ seal event ∷ [])

pub record ChainVerification : Type 0 where
  pub valid : Bool
  pub length : ℕ
  pub broken_at : Option ℕ
  pub reason : Option String

abbrev pub links_to : Option String → String → Bool
links_to none expected = false
links_to (some h) expected = h == expected

abbrev broken : ℕ → ℕ → String → ChainVerification
broken total i reason = record {
  valid = false;
  length = total;
  broken_at = some i;
  reason = some reason;
}

abbrev link_reason : ℕ → Option String → String
link_reason i prev =
    if eqb i 0
    then template (
        "chain head prevHash "
        ∷ or_else prev "undefined"
        ∷ " != genesis (event may be spliced/dropped)"
        ∷ [])
    else template (
        "prevHash at index "
        ∷ number_text i
        ∷ " does not link to the prior event's hash (broken chain)"
        ∷ [])

abbrev hash_reason : ℕ → String
hash_reason i =
    template
      ("eventHash mismatch at index " ∷ number_text i ∷ ": payload was tampered after sealing" ∷ [])

-- The loop of `verifyChain`, from index `i` on.
unfoldable pub verify_from : ℕ → String → ℕ → List SealedAuditEvent → ChainVerification
verify_from total expected_prev i [] = record {
  valid = true;
  length = total;
  broken_at = none;
  reason = none;
}
verify_from total expected_prev i (e ∷ events) =
    let rest = verify_from total (hash_event e.event) (i + 1) events in
    if not (links_to e.event.prev_hash expected_prev)
    then broken total i (link_reason i e.event.prev_hash)
    else if not (hash_event e.event == e.event_hash)
    then broken total i (hash_reason i)
    else rest

unfoldable pub verify_chain : List SealedAuditEvent → ChainVerification
unfolding verify_from
verify_chain events = verify_from (length events) genesis 0 events
