-- ===== src/Tests/Ledger.antt =====
-- packages/governance/src/audit-ledger.ts on a ledger of two events.
use liminal_engine.Prelude.{
  ◌≡◌, refl, ◌↔◌, ◌⊎◌, true, none, some, List, [], ◌∷◌, ◌++◌, map, any, ok, ◌&&◌,
}
use liminal_engine.Contracts.Audit.{AuditEvent}
use liminal_engine.Contracts.Parsing.{is_valid_audit_event, parse_audit_event}
use liminal_engine.Contracts.Redact.{
  redact_audit_event_snapshots, redact_audit_snapshot, is_sensitive,
}
use liminal_engine.Governance.Ledger.{
  SealedAuditEvent, hash_event, genesis, append, verify_from, verify_chain,
}
use liminal_engine.Governance.Ledger.Chain.{
  Linked, done, link, is_clean, verify_chain_iff, append-verified,
}
use liminal_engine.Governance.Ledger.Tamper.{
  payload, Collision, BreaksAt, tamper_evident, broken_at_first,
}
use liminal_engine.Governance.Ledger.Lifecycle.{
  belongs_to, is_ok, reconstruct_case_lifecycle, reconstruct-is_ok,
}
use liminal_engine.Tests.Fixtures.{zod, opened}

abbrev first : SealedAuditEvent
first = record { event = opened; event_hash = hash_event opened }

abbrev elsewhere : AuditEvent
elsewhere = record opened {
  id = "ae_2";
  case_id = "gc_other";
  prev_hash = some (hash_event opened);
}

abbrev second : SealedAuditEvent
second = record { event = elsewhere; event_hash = hash_event elsewhere }

abbrev ledger : List SealedAuditEvent
ledger = first ∷ second ∷ []

ledger_verifies : (verify_chain ledger).valid ≡ true
ledger_verifies = (verify_chain_iff ledger).1 (link refl refl (link refl refl done))

verify_chain_iff_example : ((verify_chain ledger).valid ≡ true) ↔ Linked genesis ledger
verify_chain_iff_example = verify_chain_iff ledger

appends : append zod [] opened ≡ ok (first, first ∷ [])
unfolding append parse_audit_event is_valid_audit_event redact_audit_event_snapshots
    redact_audit_snapshot is_sensitive
appends = refl

append-verified_example :
    (first ∷ [] ≡ [] ++ first ∷ [])
    × ((verify_chain (first ∷ [])).valid ≡ true)
    × (is_clean first.event.before_state ≡ true)
    × (is_clean first.event.after_state ≡ true)
append-verified_example =
    append-verified zod [] opened first (first ∷ []) appends ((verify_chain_iff []).1 done)

tamper_evident_example : (map payload ledger ≡ map payload ledger) ⊎ Collision ledger ledger
tamper_evident_example = tamper_evident ledger ledger ledger_verifies ledger_verifies refl refl

-- An event that lost its link.
abbrev dangling : SealedAuditEvent
dangling = record { event = record opened { prev_hash = none }; event_hash = "spliced" }

dangling_found : (verify_chain (dangling ∷ [])).broken_at ≡ some 0
unfolding verify_chain verify_from
dangling_found = refl

broken_at_first_example : BreaksAt genesis (dangling ∷ []) 0
broken_at_first_example = broken_at_first (dangling ∷ []) 0 dangling_found

reconstruct-is_ok_example :
    is_ok (reconstruct_case_lifecycle ledger "gc_acme")
    ≡ ((verify_chain ledger).valid && any (belongs_to "gc_acme") ledger)
reconstruct-is_ok_example = reconstruct-is_ok ledger "gc_acme"
