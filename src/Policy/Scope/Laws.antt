-- ===== src/Policy/Scope/Laws.antt =====
-- `evaluateScope` of packages/policy/src/scope.ts: when an action is governed.
use liminal_engine.Prelude.{
  ◌≡◌, ◌↔◌, Bool, true, false, none, some, or_else, List, [], ◌∷◌, All, Any, find, find-none,
  find-eq-none, arith, Option-cases, Bool-cases, inl, inr,
}
use mathlib.Core.Bool.{false≢true}
use liminal_engine.Contracts.Action.{InterceptedAction}
use liminal_engine.Policy.Scope.{
  ScopeRule, ProxyScope, scope_rule_matches, evaluate_includes, evaluate_scope,
}

-- No exclude rule matches and some include rule does.
abbrev pub IsGoverned : InterceptedAction → ProxyScope → Type 0
IsGoverned action scope =
    All (λ rule. scope_rule_matches action rule ≡ false) (or_else scope.exclude [])
    × Any (λ rule. scope_rule_matches action rule ≡ true) scope.include

Any-of_find :
    (p : ScopeRule → Bool) (xs : List ScopeRule) (a : ScopeRule)
    → find p xs ≡ some a
    → Any (λ x. p x ≡ true) xs
Any-of_find p [] a h = cc
Any-of_find p (x ∷ xs) a h = elim (Bool-cases (p x)) [
  | inl e ↦ inl e
  | inr e ↦ inr (Any-of_find p xs a (rw e at h))
]

find-ne-none_of_Any :
    (p : ScopeRule → Bool) (xs : List ScopeRule) → Any (λ x. p x ≡ true) xs → find p xs ≡ none → ⊥
find-ne-none_of_Any p [] h k = h
find-ne-none_of_Any p (x ∷ xs) (inl e) k = ground arith
find-ne-none_of_Any p (x ∷ xs) (inr h) k = ground (arith, find-ne-none_of_Any p xs h)

included_iff :
    (action : InterceptedAction) (rules : List ScopeRule)
    → ((evaluate_includes action rules).in_scope ≡ true)
      ↔ Any (λ rule. scope_rule_matches action rule ≡ true) rules
included_iff action [] = (λ h. cc, λ h. absurd h)
included_iff action (r ∷ rs) = elim (Option-cases (find (scope_rule_matches action) (r ∷ rs))) [
  | inl missed ↦ (
    λ h. absurd (false≢true (rw missed at h)),
    λ h. absurd (find-ne-none_of_Any (scope_rule_matches action) (r ∷ rs) h missed),
  )
  | inr (rule, found) ↦
      (λ _. Any-of_find (scope_rule_matches action) (r ∷ rs) rule found, λ _. rw found)
]

-- With a scope, an action is in scope exactly when no exclude rule matches it and some include rule
-- does: an exclusion wins over every inclusion.
pub evaluate_scope_iff :
    (action : InterceptedAction) (scope : ProxyScope)
    → ((evaluate_scope action (some scope)).in_scope ≡ true) ↔ IsGoverned action scope
unfolding evaluate_scope
evaluate_scope_iff action scope =
    let exclude : List ScopeRule = or_else scope.exclude [] in
    elim (Option-cases (find (scope_rule_matches action) exclude)) [
      | inl free ↦ (
        λ h. (
          find-none (scope_rule_matches action) exclude free,
          (included_iff action scope.include).0 (rw free at h),
        ),
        λ h. rw free ((included_iff action scope.include).1 h.1),
      )
      | inr (rule, found) ↦ (
        λ h. absurd (false≢true (rw found at h)),
        λ h. cc (find-eq-none (scope_rule_matches action) exclude h.0),
      )
    ]
