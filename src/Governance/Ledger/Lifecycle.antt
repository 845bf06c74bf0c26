-- ===== src/Governance/Ledger/Lifecycle.antt =====
-- `reconstructCaseLifecycle` of packages/governance/src/audit-ledger.ts: a case's state from its
-- audit events alone.
use liminal_engine.Prelude.{
  String, template, ◌==◌, ◌||◌, ◌&&◌, Bool, true, false, ◌≡◌, refl, Option, none, some, or_else,
  List, [], ◌∷◌, ◌++◌, filter, any, Result, ok, err, if◌then◌else◌, Bool-cases, inl, inr,
}
use liminal_engine.Contracts.Value.{Value, Fields, get}
use liminal_engine.Contracts.Audit.{status_text}
use liminal_engine.Governance.Ledger.{SealedAuditEvent, hash_event, genesis, verify_chain}
use liminal_engine.Governance.Ledger.Chain.{Linked, done, link, verify_chain_iff}

pub record ReconstructedCase : Type 0 where
  pub case_id : String
  pub deal_id : String
  pub current_status : String
  pub deal_status : String
  pub timeline : List SealedAuditEvent

-- `e.afterState?.[key]`
abbrev after_value : Option Fields → String → Value
after_value none key = Value.undefined
after_value (some fs) key = get key fs

-- The value if it is a string.
abbrev text_or : Value → String → String
text_or (Value.string s) other = s
text_or _ other = other

abbrev status_by_action : String → String → String
status_by_action action current =
    if action == "case.opened"
    then "open"
    else if action == "case.closed"
    then "closed"
    else if action == "correction.enforced" || action == "correction-enforced"
    then "corrected"
    else current

-- One round of the fold: the case status and the deal status after the event.
unfoldable pub status_after : String → SealedAuditEvent → String
status_after current s =
    text_or (after_value s.event.after_state "status") (status_by_action s.event.action current)

unfoldable pub deal_after : SealedAuditEvent → String
deal_after s =
    text_or (after_value s.event.after_state "dealStatus") (status_text s.event.new_status)

abbrev fold_status : String → List SealedAuditEvent → String
fold_status current [] = current
fold_status current (s ∷ timeline) = fold_status (status_after current s) timeline

abbrev fold_deal : String → List SealedAuditEvent → String
fold_deal current [] = current
fold_deal current (s ∷ timeline) = fold_deal (deal_after s) timeline

abbrev pub belongs_to : String → SealedAuditEvent → Bool
belongs_to case_id s = s.event.case_id == case_id

abbrev lifecycle : String → List SealedAuditEvent → Result ReconstructedCase
lifecycle case_id [] = err (template ("no AuditEvents found for case " ∷ case_id ∷ []))
lifecycle case_id (s ∷ timeline) = ok (record {
  case_id = case_id;
  deal_id = s.event.deal_id;
  current_status = fold_status "open" (s ∷ timeline);
  deal_status = fold_deal (status_text s.event.previous_status) (s ∷ timeline);
  timeline = s ∷ timeline;
})

unfoldable pub reconstruct_case_lifecycle :
    List SealedAuditEvent → String → Result ReconstructedCase
reconstruct_case_lifecycle events case_id =
    let verdict = verify_chain events in
    if verdict.valid
    then lifecycle case_id (filter (belongs_to case_id) events)
    else err (
        template (
          "cannot reconstruct: audit chain is invalid ("
          ∷ or_else verdict.reason "broken chain"
          ∷ ")"
          ∷ []))

abbrev pub is_ok {ℓ} : {A : Type ℓ} → Result A → Bool
is_ok (ok a) = true
is_ok (err e) = false

lifecycle-is_ok :
    (case_id : String) (events : List SealedAuditEvent)
    → is_ok (lifecycle case_id (filter (belongs_to case_id) events))
      ≡ any (belongs_to case_id) events
lifecycle-is_ok case_id [] = refl
lifecycle-is_ok case_id (s ∷ events) = elim (Bool-cases (belongs_to case_id s)) [
  | inl e ↦ rw e
  | inr e ↦ rw e (lifecycle-is_ok case_id events)
]

-- A case is reconstructed exactly from a chain that verifies and holds an event of the case.
pub reconstruct-is_ok :
    (events : List SealedAuditEvent) (case_id : String)
    → is_ok (reconstruct_case_lifecycle events case_id)
      ≡ (verify_chain events).valid && any (belongs_to case_id) events
unfolding reconstruct_case_lifecycle
reconstruct-is_ok events case_id = elim (Bool-cases (verify_chain events).valid) [
  | inl e ↦ rw e (lifecycle-is_ok case_id events)
  | inr e ↦ rw e
]

Linked-prefix :
    (prev : String) (xs ys : List SealedAuditEvent) → Linked prev (xs ++ ys) → Linked prev xs
Linked-prefix prev [] ys h = done
Linked-prefix prev (x ∷ xs) ys (link p q h) = link p q (Linked-prefix (hash_event x.event) xs ys h)

filter-append-miss :
    (p : SealedAuditEvent → Bool) (xs : List SealedAuditEvent) (y : SealedAuditEvent)
    → p y ≡ false
    → filter p (xs ++ y ∷ []) ≡ filter p xs
filter-append-miss p [] y h = rw h
filter-append-miss p (x ∷ xs) y h = rw (filter-append-miss p xs y h)

-- In a chain that verifies, a last event of another case changes nothing in the reconstruction.
reconstruct_other_case :
    (events : List SealedAuditEvent) (s : SealedAuditEvent) (case_id : String)
    → (verify_chain (events ++ s ∷ [])).valid ≡ true
    → belongs_to case_id s ≡ false
    → reconstruct_case_lifecycle (events ++ s ∷ []) case_id
      ≡ reconstruct_case_lifecycle events case_id
unfolding reconstruct_case_lifecycle
reconstruct_other_case events s case_id valid other =
    let before : (verify_chain events).valid ≡ true =
      (verify_chain_iff events).1
        (Linked-prefix genesis events (s ∷ []) ((verify_chain_iff (events ++ s ∷ [])).0 valid)) in
    rw (valid, before, filter-append-miss (belongs_to case_id) events s other)
