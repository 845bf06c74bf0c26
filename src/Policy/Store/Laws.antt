-- ===== src/Policy/Store/Laws.antt =====
-- What the lookups of packages/integrations/policy-store/src/index.ts find after each change.
use liminal_engine.Prelude.{
  String, ◌==◌, eq_iff, ==-sym, Ordering, ◌≡◌, refl, ap, subst, ◌∙◌, true, false, none, some,
  is_some, List, [], ◌∷◌, ◌++◌, any, if◌then◌else◌, Bool-cases, inl, inr, arith,
}
use liminal_engine.Prelude.Sorting.{le, insert, sort}
use liminal_engine.Contracts.PolicyRule.{ActionPolicyRule}
use liminal_engine.Policy.Store.{has_rule_id, replace, by_id}

-- No two rules have the same id.
abbrev pub Unique : List ActionPolicyRule → Type 0
Unique [] = Unit
Unique (r ∷ rules) = (by_id r.id rules ≡ none) × Unique rules

pub any-by_id :
    (id : String) (rules : List ActionPolicyRule)
    → any (has_rule_id id) rules ≡ is_some (by_id id rules)
any-by_id id [] = refl
any-by_id id (r ∷ rules) = ground (arith, any-by_id id rules)

pub none_of_any :
    (id : String) (rules : List ActionPolicyRule)
    → any (has_rule_id id) rules ≡ false
    → by_id id rules ≡ none
none_of_any id [] h = refl
none_of_any id (r ∷ rules) h = ground (arith, none_of_any id rules)

-- The rule added last is found under its id, and the others as before.
pub by_id-append :
    (k : String) (rules : List ActionPolicyRule) (r : ActionPolicyRule)
    → by_id r.id rules ≡ none
    → by_id k (rules ++ r ∷ []) ≡ (if has_rule_id k r then some r else by_id k rules)
by_id-append k [] r h = refl
by_id-append k (q ∷ rules) r h = elim (Bool-cases (q.id == r.id)) [
  | inl e ↦ ground (arith, h, e)
  | inr e ↦ elim (Bool-cases (r.id == k)) [
    | inl f ↦
        let same : r.id ≡ k = (eq_iff r.id k).0 f in
        let g : (q.id == k) ≡ false = subst (λ x. (q.id == x) ≡ false) same e in
        rw (g, f, by_id-append k rules r (ground (arith, h, e))) (rw f refl)
    | inr f ↦ rw (by_id-append k rules r (ground (arith, h, e)), f) refl
  ]
]

-- The replaced rule is found under its id, and the others as before.
pub by_id-replace :
    (k : String) (rules : List ActionPolicyRule) (r : ActionPolicyRule)
    → any (has_rule_id r.id) rules ≡ true
    → by_id k (replace r rules) ≡ (if has_rule_id k r then some r else by_id k rules)
unfolding replace
by_id-replace k [] r h = cc
by_id-replace k (q ∷ rules) r h = elim (Bool-cases (q.id == r.id)) [
  | inl e ↦
      let same : q.id ≡ r.id = (eq_iff q.id r.id).0 e in
      elim (Bool-cases (r.id == k)) [ inl f ↦ rw (e, f) refl | inr f ↦ rw (e, f, same, f) refl ]
  | inr e ↦ elim (Bool-cases (r.id == k)) [
    | inl f ↦
        let same : r.id ≡ k = (eq_iff r.id k).0 f in
        let g : (q.id == k) ≡ false = subst (λ x. (q.id == x) ≡ false) same e in
        rw (e, g, by_id-replace k rules r (ground (arith, h, e)), f) refl
    | inr f ↦ rw (e, by_id-replace k rules r (ground (arith, h, e)), f) refl
  ]
]

pub Unique-append :
    (rules : List ActionPolicyRule) (r : ActionPolicyRule)
    → by_id r.id rules ≡ none
    → Unique rules
    → Unique (rules ++ r ∷ [])
Unique-append [] r h u = (refl, tt)
Unique-append (q ∷ rules) r h (fresh, u) = elim (Bool-cases (q.id == r.id)) [
  | inl e ↦ ground (arith, h, e)
  | inr e ↦ (
    by_id-append q.id rules r (ground (arith, h, e)) ∙ rw (==-sym q.id r.id e) fresh,
    Unique-append rules r (ground (arith, h, e)) u,
  )
]

pub Unique-replace :
    (rules : List ActionPolicyRule) (r : ActionPolicyRule)
    → any (has_rule_id r.id) rules ≡ true
    → Unique rules
    → Unique (replace r rules)
unfolding replace
Unique-replace [] r h u = tt
Unique-replace (q ∷ rules) r h (fresh, u) = elim (Bool-cases (q.id == r.id)) [
  | inl e ↦
      let same : q.id ≡ r.id = (eq_iff q.id r.id).0 e in
      rw e (subst (λ x. by_id x rules ≡ none) same fresh, u)
  | inr e ↦ rw e (
    by_id-replace q.id rules r (ground (arith, h, e)) ∙ rw (==-sym q.id r.id e) fresh,
    Unique-replace rules r (ground (arith, h, e)) u,
  )
]

module _ (cmp : ActionPolicyRule → ActionPolicyRule → Ordering) where
  by_id-insert :
      (k : String) (r : ActionPolicyRule) (rules : List ActionPolicyRule)
      → by_id r.id rules ≡ none
      → by_id k (insert cmp r rules) ≡ (if has_rule_id k r then some r else by_id k rules)
  by_id-insert k r [] h = refl
  by_id-insert k r (q ∷ rules) h = elim (Bool-cases (le (cmp r q))) [
    | inl e ↦ rw e refl
    | inr e ↦ elim (Bool-cases (q.id == r.id)) [
      | inl f ↦ ground (arith, h, f)
      | inr f ↦ elim (Bool-cases (r.id == k)) [
        | inl g ↦
            let same : r.id ≡ k = (eq_iff r.id k).0 g in
            let i : (q.id == k) ≡ false = subst (λ x. (q.id == x) ≡ false) same f in
            rw (e, i, by_id-insert k r rules (ground (arith, h, f)), g) refl
        | inr g ↦ rw (e, by_id-insert k r rules (ground (arith, h, f)), g) refl
      ]
    ]
  ]

  Unique-insert :
      (r : ActionPolicyRule) (rules : List ActionPolicyRule)
      → by_id r.id rules ≡ none
      → Unique rules
      → Unique (insert cmp r rules)
  Unique-insert r [] h u = (refl, tt)
  Unique-insert r (q ∷ rules) h (fresh, u) = elim (Bool-cases (le (cmp r q))) [
    | inl e ↦ rw e (h, (fresh, u))
    | inr e ↦ elim (Bool-cases (q.id == r.id)) [
      | inl f ↦ ground (arith, h, f)
      | inr f ↦ rw e (
        by_id-insert q.id r rules (ground (arith, h, f)) ∙ rw (==-sym q.id r.id f) fresh,
        Unique-insert r rules (ground (arith, h, f)) u,
      )
    ]
  ]

  pub by_id-sort :
      (k : String) (rules : List ActionPolicyRule)
      → Unique rules
      → by_id k (sort cmp rules) ≡ by_id k rules
  by_id-sort k [] u = refl
  by_id-sort k (r ∷ rules) (fresh, u) =
      by_id-insert k r (sort cmp rules) (by_id-sort r.id rules u ∙ fresh)
      ∙ ap (λ o. if has_rule_id k r then some r else o) (by_id-sort k rules u)

  pub Unique-sort : (rules : List ActionPolicyRule) → Unique rules → Unique (sort cmp rules)
  Unique-sort [] u = tt
  Unique-sort (r ∷ rules) (fresh, u) =
      Unique-insert r (sort cmp rules) (by_id-sort r.id rules u ∙ fresh) (Unique-sort rules u)
