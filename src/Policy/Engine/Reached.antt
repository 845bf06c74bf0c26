-- ===== src/Policy/Engine/Reached.antt =====
-- The two ways in which `decide` of packages/policy/src/policy-engine.ts reaches an answer.
use liminal_engine.Prelude.{
  Ordering, String, ◌≡◌, sym, inl, inr, true, false, List, [], ◌∷◌, All, ok, >>=-eq-ok, traverse,
  arith, Bool-cases,
}
use liminal_engine.Contracts.Action.{InterceptedAction}
use liminal_engine.Contracts.PolicyRule.{ActionPolicyRule}
use liminal_engine.Contracts.Zod.{Zod}
use liminal_engine.Contracts.Parsing.{
  is_valid_action, is_valid_rule, parse_action, parse_rule, parse_action-eq, parse_rule-eq,
}
use liminal_engine.Policy.Scope.{evaluate_scope}
use liminal_engine.Policy.Decision.{DecisionSource, DecideDeps, PolicyDecision}
use liminal_engine.Policy.Engine.{best_matching_rule, decide_by, decide}

module _ (zod : Zod) where
  traverse-parse_rule :
      (rules parsed : List ActionPolicyRule)
      → traverse (parse_rule zod) rules ≡ ok parsed
      → (rules ≡ parsed) × All (λ r. is_valid_rule zod r ≡ true) rules
  traverse-parse_rule [] parsed h = (cc, tt)
  traverse-parse_rule (r ∷ rules) parsed h =
      let (r', first, h') = >>=-eq-ok (parse_rule zod r) _ h in
      let (rest, later, made) = >>=-eq-ok (traverse (parse_rule zod) rules) _ h' in
      let (same, valid) = traverse-parse_rule rules rest later in
      (cc (parse_rule-eq zod r r' first), (parse_rule-valid r r' first, valid))
    where
      parse_rule-valid :
          (s s' : ActionPolicyRule) → parse_rule zod s ≡ ok s' → is_valid_rule zod s ≡ true
      parse_rule-valid s s' e = unfold parse_rule in ground arith

module _ (zod : Zod) (locale_compare : String → String → Ordering) where
  -- How a decision is reached.
  pub data Reached (action : InterceptedAction) (rules : List ActionPolicyRule) (deps : DecideDeps)
      (d : PolicyDecision) : Type 0 where
    outside :
        (evaluate_scope action deps.scope).in_scope ≡ false
        → d.source ≡ DecisionSource.scope
        → Reached action rules deps d
    inside :
        (evaluate_scope action deps.scope).in_scope ≡ true
        → All (λ r. is_valid_rule zod r ≡ true) rules
        → d ≡ decide_by action deps.mode (best_matching_rule locale_compare action rules)
        → Reached action rules deps d

  decide_inside :
      (action : InterceptedAction) (rules : List ActionPolicyRule) (deps : DecideDeps)
      (d : PolicyDecision)
      → (evaluate_scope action deps.scope).in_scope ≡ true
      → decide zod locale_compare action rules deps ≡ ok d
      → Reached action rules deps d
  unfolding decide parse_action
  decide_inside action rules deps d governed h =
      let (a, parsed, h') = >>=-eq-ok (parse_action zod action) _ h in
      let (rest, later, made) =
        >>=-eq-ok (traverse (parse_rule zod) rules) _
          (rw (sym (parse_action-eq zod action a parsed), governed) at h') in
      let (same, valid) = traverse-parse_rule zod rules rest later in inside governed valid (cc)

  -- A decision is made for a valid action only, and is reached in one of two ways.
  pub decide-Reached :
      (action : InterceptedAction) (rules : List ActionPolicyRule) (deps : DecideDeps)
      (d : PolicyDecision)
      → decide zod locale_compare action rules deps ≡ ok d
      → (is_valid_action zod action ≡ true) × Reached action rules deps d
  unfolding decide parse_action
  decide-Reached action rules deps d h = (
    ground arith,
    elim (Bool-cases (evaluate_scope action deps.scope).in_scope) [
      | inl i ↦ decide_inside action rules deps d i h
      | inr o ↦
          let (a, parsed, h') = >>=-eq-ok (parse_action zod action) _ h in
          outside o (cc (rw (sym (parse_action-eq zod action a parsed), o) at h'))
    ],
  )
