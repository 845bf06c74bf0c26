-- ===== src/Governance/Ledger/Tamper.antt =====
-- Tampering with the chain of packages/governance/src/audit-ledger.ts, and where a broken chain is
-- reported.
use liminal_engine.Prelude.{
  ℕ, suc, ◌+◌, ◌<◌, String, ◌==◌, eq_iff, ◌≡◌, ◌≢◌, refl, sym, ap, ◌∙◌, ◌⊎◌, inl, inr, true, false,
  Option, none, some, List, [], Member, ◌∷◌, map, length, take, arith, Bool-cases,
}
use mathlib.Core.Bool.{false≢true}
use native.Mathlib.Decide.{ℕ_discrete}
use liminal_engine.Contracts.Value.{Value, Fields, get}
use liminal_engine.Contracts.Audit.{AuditEvent, audit_fields, audit_canonical, optional_field}
use liminal_engine.Contracts.CanonicalHash.{canonical_hash}
use liminal_engine.Governance.Ledger.{
  SealedAuditEvent, hash_event, genesis, links_to, verify_from, verify_chain,
}
use liminal_engine.Governance.Ledger.Chain.{
  Linked, done, link, final_hash, links_to_iff, verify_chain_iff,
}

String-discrete : Discrete String
String-discrete s t = elim (Bool-cases (s == t)) [
  | inl e ↦ yes ((eq_iff s t).0 e)
  | inr e ↦ no (λ p. false≢true (sym e ∙ (eq_iff s t).1 p))
]

Value-discrete : Discrete Value
Value-discrete = hlevel (ℕ_discrete, String-discrete)

-- The link is part of what is hashed.
get-optional_field :
    {A : Type 0} (key : String) (to_value : A → Value) (o : Option A) (rest : Fields)
    → (key == "prev_hash") ≡ false
    → get "prev_hash" (optional_field key to_value o rest) ≡ get "prev_hash" rest
get-optional_field key to_value none rest h = refl
get-optional_field key to_value (some a) rest h = rw h

abbrev link_value : Option String → Value
link_value none = Value.undefined
link_value (some h) = Value.string h

prev_hash_hashed : (e : AuditEvent) → get "prev_hash" (audit_fields e) ≡ link_value e.prev_hash
unfolding audit_fields
prev_hash_hashed e = simp get-optional_field (last e.prev_hash)
  where
    last :
        (o : Option String)
        → get "prev_hash" (optional_field "prev_hash" Value.string o Fields.empty) ≡ link_value o
    last none = refl
    last (some h) = refl

same_link : (d e : AuditEvent) → audit_canonical d ≡ audit_canonical e → d.prev_hash ≡ e.prev_hash
unfolding audit_canonical
same_link d e h =
    let fields : audit_fields d ≡ audit_fields e = cc in
    link_value_injective d.prev_hash e.prev_hash
      (sym (prev_hash_hashed d) ∙ ap (get "prev_hash") fields ∙ prev_hash_hashed e)
  where
    link_value_injective : (o p : Option String) → link_value o ≡ link_value p → o ≡ p
    link_value_injective none none q = refl
    link_value_injective none (some h) q = cc
    link_value_injective (some h) none q = cc
    link_value_injective (some h) (some k) q = cc

-- The canonical payload of a sealed event.
abbrev pub payload : SealedAuditEvent → Value
payload s = audit_canonical s.event

-- An event of each ledger whose payloads differ and have one hash.
pub record Collision (xs ys : List SealedAuditEvent) : Type 0 where
  pub left : SealedAuditEvent
  pub right : SealedAuditEvent
  pub listed : Member left xs
  pub listed_too : Member right ys
  pub differ : payload left ≢ payload right
  pub agree : canonical_hash (payload left) ≡ canonical_hash (payload right)

Collision-cons :
    (x y : SealedAuditEvent) {xs ys : List SealedAuditEvent}
    → Collision xs ys
    → Collision (x ∷ xs) (y ∷ ys)
Collision-cons x y c = record {
  left = c.left;
  right = c.right;
  listed = inr c.listed;
  listed_too = inr c.listed_too;
  differ = c.differ;
  agree = c.agree;
}

tamper_evident_from :
    (p q : String) (xs ys : List SealedAuditEvent)
    → Linked p xs
    → Linked q ys
    → length xs ≡ length ys
    → final_hash p xs ≡ final_hash q ys
    → ((p ≡ q) × (map payload xs ≡ map payload ys)) ⊎ Collision xs ys
tamper_evident_from p q [] [] h k n e = inl (e, refl)
tamper_evident_from p q [] (y ∷ ys) h k n e = absurd (omega arith)
tamper_evident_from p q (x ∷ xs) [] h k n e = absurd (omega arith)
tamper_evident_from p q (x ∷ xs) (y ∷ ys) (link px hx h) (link py hy k) n e = heads (
    tamper_evident_from (hash_event x.event) (hash_event y.event) xs ys h k (omega arith)
      (rw (hx, hy) e))
  where
    heads :
        ((hash_event x.event ≡ hash_event y.event) × (map payload xs ≡ map payload ys))
          ⊎ Collision xs ys
        → ((p ≡ q) × (map payload (x ∷ xs) ≡ map payload (y ∷ ys))) ⊎ Collision (x ∷ xs) (y ∷ ys)
    heads (inr c) = inr (Collision-cons x y c)
    heads (inl (same, rest)) = elim (Value-discrete (payload x) (payload y)) [
      | yes u ↦ inl (cc (same_link x.event y.event u, px, py), cc)
      | no u ↦ inr (record {
        left = x;
        right = y;
        listed = inl refl;
        listed_too = inl refl;
        differ = u;
        agree = unfold hash_event in same;
      })
    ]

-- Two verified ledgers of one length that end in the same hash record the same canonical payloads,
-- in the same order, unless two of their events have different payloads with one hash.
pub tamper_evident :
    (xs ys : List SealedAuditEvent)
    → (verify_chain xs).valid ≡ true
    → (verify_chain ys).valid ≡ true
    → length xs ≡ length ys
    → final_hash genesis xs ≡ final_hash genesis ys
    → (map payload xs ≡ map payload ys) ⊎ Collision xs ys
tamper_evident xs ys h k n e = forget (
    tamper_evident_from genesis genesis xs ys ((verify_chain_iff xs).0 h)
      ((verify_chain_iff ys).0 k) n e)
  where
    forget :
        ((genesis ≡ genesis) × (map payload xs ≡ map payload ys)) ⊎ Collision xs ys
        → (map payload xs ≡ map payload ys) ⊎ Collision xs ys
    forget (inl (_, same)) = inl same
    forget (inr c) = inr c

-- The events before the `k`-th are linked and those up to it are not.
abbrev pub BreaksAt : String → List SealedAuditEvent → ℕ → Type 0
BreaksAt prev events k =
    (k < length events) × Linked prev (take k events) × ¬ (Linked prev (take (suc k) events))

BreaksAt-zero :
    (prev : String) (e : SealedAuditEvent) (events : List SealedAuditEvent)
    → ¬ ((e.event.prev_hash ≡ some prev) × (hash_event e.event ≡ e.event_hash))
    → BreaksAt prev (e ∷ events) 0
BreaksAt-zero prev e events bad = (omega arith, done, λ h. bad (head_link h))
  where
    head_link :
        Linked prev (e ∷ []) → (e.event.prev_hash ≡ some prev) × (hash_event e.event ≡ e.event_hash)
    head_link (link p q _) = (p, q)

BreaksAt-suc :
    (prev : String) (e : SealedAuditEvent) (events : List SealedAuditEvent) (k : ℕ)
    → e.event.prev_hash ≡ some prev
    → hash_event e.event ≡ e.event_hash
    → BreaksAt (hash_event e.event) events k
    → BreaksAt prev (e ∷ events) (suc k)
BreaksAt-suc prev e events k p q (lt, before, not_after) =
    (omega arith, link p q before, λ h. not_after (tail_link h))
  where
    tail_link :
        Linked prev (e ∷ take (suc k) events) → Linked (hash_event e.event) (take (suc k) events)
    tail_link (link _ _ h) = h

broken_at_from :
    (total : ℕ) (prev : String) (i j : ℕ) (events : List SealedAuditEvent)
    → (verify_from total prev i events).broken_at ≡ some j
    → (k : ℕ) × (j ≡ i + k) × BreaksAt prev events k
unfolding verify_from
broken_at_from total prev i j [] h = cc
broken_at_from total prev i j (e ∷ events) h = elim (Bool-cases (links_to e.event.prev_hash prev)) [
  | inr unlinked ↦ (
    0,
    ground arith,
    BreaksAt-zero prev e events (λ good. cc ((links_to_iff e.event.prev_hash prev).1 good.0)),
  )
  | inl linked ↦ elim (Bool-cases (hash_event e.event == e.event_hash)) [
    | inr tampered ↦ (
      0,
      ground arith,
      BreaksAt-zero prev e events
          (λ good. cc ((eq_iff (hash_event e.event) e.event_hash).1 good.1)),
    )
    | inl own ↦
        let (k, at, breaks) =
          broken_at_from total (hash_event e.event) (i + 1) j events (ground arith) in
        (
          suc k,
          omega arith,
          BreaksAt-suc prev e events k ((links_to_iff e.event.prev_hash prev).0 linked)
              ((eq_iff (hash_event e.event) e.event_hash).0 own) breaks,
        )
  ]
]

-- The index that the verifier reports is that of the first event that breaks the chain: the events
-- before it are linked from the genesis on, and with it they are not.
pub broken_at_first :
    (events : List SealedAuditEvent) (k : ℕ)
    → (verify_chain events).broken_at ≡ some k
    → BreaksAt genesis events k
unfolding verify_chain
broken_at_first events k h =
    let (j, at, breaks) = broken_at_from (length events) genesis 0 k events h in
    let same : j ≡ k = omega arith in rw same at breaks
