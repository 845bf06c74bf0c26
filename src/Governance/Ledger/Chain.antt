-- ===== src/Governance/Ledger/Chain.antt =====
-- The writer and the verifier of packages/governance/src/audit-ledger.ts.
use liminal_engine.Prelude.{
  ℕ, ◌+◌, String, eq_iff, ◌≡◌, refl, ◌↔◌, ◌∙◌, Bool, true, Option, none, some, List, [], ◌∷◌, ◌++◌,
  length, get_last?, Result, ok, err, >>=-eq-ok, arith,
}
use liminal_engine.Contracts.Zod.{Zod}
use liminal_engine.Contracts.Value.{Fields}
use liminal_engine.Contracts.Audit.{AuditEvent}
use liminal_engine.Contracts.Parsing.{parse_audit_event, parse_audit_event-eq}
use liminal_engine.Contracts.Redact.{redact_optional, redact_audit_event_snapshots}
use liminal_engine.Contracts.Redact.Laws.{has_no_raw, redact_audit_snapshot-has_no_raw}
use liminal_engine.Governance.Ledger.{
  SealedAuditEvent, hash_event, genesis, AuditLedger, tail_hash, append, links_to, verify_from,
  verify_chain,
}

-- A chain whose first event points at `prev`: each event is sealed with its own hash, and points at
-- the hash of the event before it.
pub data Linked : String → List SealedAuditEvent → Type 0 where
  done : {prev : String} → Linked prev []
  link :
      {prev : String} {e : SealedAuditEvent} {events : List SealedAuditEvent}
      → e.event.prev_hash ≡ some prev
      → hash_event e.event ≡ e.event_hash
      → Linked (hash_event e.event) events
      → Linked prev (e ∷ events)

pub links_to_iff : (prev : Option String) (h : String) → (links_to prev h ≡ true) ↔ (prev ≡ some h)
links_to_iff none h = (λ p. cc, λ p. cc)
links_to_iff (some s) h = (λ p. ground (arith, eq_iff s h), λ p. ground (arith, eq_iff s h))

verify_from_sound :
    (total : ℕ) (prev : String) (i : ℕ) (events : List SealedAuditEvent)
    → (verify_from total prev i events).valid ≡ true
    → Linked prev events
unfolding verify_from
verify_from_sound total prev i [] h = done
verify_from_sound total prev i (e ∷ events) h =
    link (ground (arith, links_to_iff e.event.prev_hash prev))
      (ground (arith, eq_iff (hash_event e.event) e.event_hash))
      (verify_from_sound total (hash_event e.event) (i + 1) events (ground arith))

verify_from_complete :
    (total : ℕ) {prev : String} (i : ℕ) {events : List SealedAuditEvent}
    → Linked prev events
    → (verify_from total prev i events).valid ≡ true
unfolding verify_from
verify_from_complete total i done = refl
verify_from_complete total {prev} i (link {e} p q h) = ground (
  arith,
  verify_from_complete total (i + 1) h,
  links_to_iff e.event.prev_hash prev,
  eq_iff (hash_event e.event) e.event_hash,
)

-- The verifier accepts exactly the chains that start at the genesis link, point each at the hash of
-- the event before, and carry each their own hash.
pub verify_chain_iff :
    (events : List SealedAuditEvent) → ((verify_chain events).valid ≡ true) ↔ Linked genesis events
unfolding verify_chain
verify_chain_iff events =
    (verify_from_sound (length events) genesis 0 events, verify_from_complete (length events) 0)

-- The hash that the next event has to point at.
abbrev pub final_hash : String → List SealedAuditEvent → String
final_hash prev [] = prev
final_hash prev (e ∷ events) = final_hash e.event_hash events

-- The tail of a chain that is not empty does not depend on its start.
tail_hash_start :
    (p q : String) (e : SealedAuditEvent) (events : List SealedAuditEvent)
    → tail_hash p (get_last? (e ∷ events)) ≡ tail_hash q (get_last? (e ∷ events))
tail_hash_start p q e [] = refl
tail_hash_start p q e (d ∷ events) = tail_hash_start p q d events

tail_hash-get_last? :
    (prev : String) (events : List SealedAuditEvent)
    → tail_hash prev (get_last? events) ≡ final_hash prev events
tail_hash-get_last? prev [] = refl
tail_hash-get_last? prev (e ∷ []) = refl
tail_hash-get_last? prev (e ∷ d ∷ events) =
    tail_hash_start prev e.event_hash d events ∙ tail_hash-get_last? e.event_hash (d ∷ events)

-- One more event, pointing at the tail, keeps a chain linked.
Linked-append :
    {prev : String} {events : List SealedAuditEvent} (e : SealedAuditEvent)
    → Linked prev events
    → e.event.prev_hash ≡ some (final_hash prev events)
    → hash_event e.event ≡ e.event_hash
    → Linked prev (events ++ e ∷ [])
Linked-append e done p q = link p q done
Linked-append e (link {e = d} {events} p' q' h) p q = link p' q' (Linked-append e h (rw q' p) q)

-- What `append` returns.
pub record IsAppended (chain : AuditLedger) (input : AuditEvent) (sealed : SealedAuditEvent)
    (after : AuditLedger) : Type 0 where
  pub grown : after ≡ chain ++ sealed ∷ []
  pub is_input :
      sealed.event
      ≡ redact_audit_event_snapshots (record input { prev_hash = some (final_hash genesis chain) })
  pub own_hash : hash_event sealed.event ≡ sealed.event_hash

pub append-IsAppended :
    (zod : Zod) (chain : AuditLedger) (input : AuditEvent) (sealed : SealedAuditEvent)
    (after : AuditLedger)
    → append zod chain input ≡ ok (sealed, after)
    → IsAppended chain input sealed after
unfolding append
append-IsAppended zod chain input sealed after h =
    let (event, parsed, made) = >>=-eq-ok (parse_audit_event zod _) _ h in
    let same = parse_audit_event-eq zod _ event parsed in
    record { grown = cc; is_input = cc (tail_hash-get_last? genesis chain); own_hash = cc }

prev_hash-redact : (e : AuditEvent) → (redact_audit_event_snapshots e).prev_hash ≡ e.prev_hash
unfolding redact_audit_event_snapshots
prev_hash-redact e = refl

abbrev pub is_clean : Option Fields → Bool
is_clean none = true
is_clean (some fs) = has_no_raw fs

clean_redact :
    (e : AuditEvent)
    → (is_clean (redact_audit_event_snapshots e).before_state ≡ true)
      × (is_clean (redact_audit_event_snapshots e).after_state ≡ true)
unfolding redact_audit_event_snapshots
clean_redact e = (of_state e.before_state, of_state e.after_state)
  where
    of_state : (s : Option Fields) → is_clean (redact_optional s) ≡ true
    of_state none = refl
    of_state (some fs) = redact_audit_snapshot-has_no_raw fs

-- A successful append adds one event at the end and changes no other, keeps a verified chain
-- verified, and seals no raw value under a sensitive key of either snapshot.
pub append-verified :
    (zod : Zod) (chain : AuditLedger) (input : AuditEvent) (sealed : SealedAuditEvent)
    (after : AuditLedger)
    → append zod chain input ≡ ok (sealed, after)
    → (verify_chain chain).valid ≡ true
    → (after ≡ chain ++ sealed ∷ [])
      × ((verify_chain after).valid ≡ true)
      × (is_clean sealed.event.before_state ≡ true)
      × (is_clean sealed.event.after_state ≡ true)
append-verified zod chain input sealed after h valid =
    let added = append-IsAppended zod chain input sealed after h in
    let linked = (verify_chain_iff chain).0 valid in
    let (before, later) =
      clean_redact (record input { prev_hash = some (final_hash genesis chain) }) in
    let points : sealed.event.prev_hash ≡ some (final_hash genesis chain) =
      rw added.is_input (prev_hash-redact _) in
    (
      added.grown,
      rw added.grown ((verify_chain_iff _).1 (Linked-append sealed linked points added.own_hash)),
      rw added.is_input before,
      rw added.is_input later,
    )

-- A ledger's writer over a sequence of inputs; one that throws leaves the ledger as it was.
abbrev after_append : AuditLedger → Result (SealedAuditEvent × AuditLedger) → AuditLedger
after_append chain (ok (sealed, after)) = after
after_append chain (err e) = chain

unfoldable pub append_all : Zod → AuditLedger → List AuditEvent → AuditLedger
append_all zod chain [] = chain
append_all zod chain (input ∷ inputs) =
    append_all zod (after_append chain (append zod chain input)) inputs

append_all_verified :
    (zod : Zod) (chain : AuditLedger) (inputs : List AuditEvent)
    → (verify_chain chain).valid ≡ true
    → (verify_chain (append_all zod chain inputs)).valid ≡ true
unfolding append_all
append_all_verified zod chain [] valid = valid
append_all_verified zod chain (input ∷ inputs) valid =
    append_all_verified zod (after_append chain (append zod chain input)) inputs
      (step (append zod chain input) refl)
  where
    step :
        (r : Result (SealedAuditEvent × AuditLedger))
        → append zod chain input ≡ r
        → (verify_chain (after_append chain r)).valid ≡ true
    step (ok (sealed, after)) e = (append-verified zod chain input sealed after e valid).1
    step (err m) e = valid

-- Whatever is appended to a new ledger, valid or not, the ledger verifies.
append_all-verified :
    (zod : Zod) (inputs : List AuditEvent) → (verify_chain (append_all zod [] inputs)).valid ≡ true
append_all-verified zod inputs = append_all_verified zod [] inputs (unfold verify_chain in refl)
