-- ===== src/Gateway/Approval/Learned.antt =====
-- The engine of packages/policy/src/policy-engine.ts on a store that took the rule of an approval, and
-- `operatorVerdict` of packages/integrations/intercept-gateway/src/gateway.ts that puts it there.
use liminal_engine.Prelude.{
  ℕ, String, Ordering, ◌≡◌, refl, sym, ap, ◌⊎◌, inl, inr, true, false, Option, none, some, List, [],
  ◌∷◌, ◌++◌, All, All-mono, All-append, All-filter, All-of_Member, All-of_filter, holds_of_Member,
  ok, Option-cases, arith,
}
use mathlib.Core.Bool.{false≢true}
use liminal_engine.Prelude.Sorting.{All-sort, All-of_sort}
use liminal_engine.Contracts.Zod.{Zod}
use liminal_engine.Contracts.Action.{InterceptedAction}
use liminal_engine.Contracts.PolicyRule.{is_active, Verdict, ActionPolicyRule}
use liminal_engine.Contracts.Parsing.{is_valid_action, is_valid_rule, parse_action}
use liminal_engine.Policy.Scope.{ProxyScope, evaluate_scope}
use liminal_engine.Policy.Decision.{PolicyMode, is_shadow}
use liminal_engine.Policy.Store.{is_active_rule, active_rules, all_rules, compare_rules}
use liminal_engine.Policy.Engine.{
  Candidate, best_matching_rule, decision_from_rule, decide, decide_from_store,
}
use liminal_engine.Policy.Engine.Selection.{
  Governs, best_matching_rule-IsFrom, best_matching_rule-none,
}
use liminal_engine.Policy.Engine.Modes.{fits, traverse_valid}

active_test : (r : ActionPolicyRule) → is_active r.status ≡ true → is_active_rule r ≡ true
active_test r h = ground arith

last-holds :
    (P : ActionPolicyRule → Type 0) (xs : List ActionPolicyRule) (x : ActionPolicyRule)
    → All P (xs ++ x ∷ [])
    → P x
last-holds P [] x (p, h) = p
last-holds P (y ∷ xs) x (p, h) = last-holds P xs x h

pub allow-decides :
    (rule : ActionPolicyRule) (mode : PolicyMode)
    → rule.effect.verdict ≡ Verdict.allow
    → is_shadow mode ≡ false
    → ((decision_from_rule rule mode).allowed ≡ true)
      × ((decision_from_rule rule mode).source_rule_id ≡ some rule.id)
unfolding decision_from_rule
allow-decides rule PolicyMode.shadow h p = cc
allow-decides rule PolicyMode.intercept h p = (rw h refl, refl)
allow-decides rule PolicyMode.learned h p = (rw h refl, refl)

-- Where no rule of the store fits an action, a rule that governs it decides as soon as it is stored.
module _ (locale_compare : String → String → Ordering) (action : InterceptedAction)
    (rules : List ActionPolicyRule) (rule : ActionPolicyRule) (n : ℕ) where
  IsOldOrNew : ActionPolicyRule → Type 0
  IsOldOrNew r = (fits action r ≡ false) ⊎ (r ≡ rule)

  unfoldable pub stored_rules : List ActionPolicyRule
  stored_rules = active_rules locale_compare (rules ++ rule ∷ [])

  All-stored : (P : ActionPolicyRule → Type 0) → All P rules → P rule → All P stored_rules
  unfolding stored_rules active_rules all_rules
  All-stored P h p =
      All-filter P is_active_rule _
        (All-sort P (compare_rules locale_compare) _ (All-append P rules (rule ∷ []) h (p, tt)))

  best-some :
      Governs action rule n → ¬ (best_matching_rule locale_compare action stored_rules ≡ none)
  unfolding stored_rules active_rules all_rules
  best-some governs missed =
      let none_governs =
        All-of_sort (λ r. is_active_rule r ≡ true → ¬ Governs action r n)
          (compare_rules locale_compare) (rules ++ rule ∷ [])
          (All-of_filter (λ r. ¬ Governs action r n) is_active_rule _
            (All-of_Member (λ r. ¬ Governs action r n) stored_rules
              λ r m g.
                best_matching_rule-none locale_compare action stored_rules r n missed m g)) in
      last-holds (λ r. is_active_rule r ≡ true → ¬ Governs action r n) rules rule none_governs
        (active_test rule governs.0) governs

  All-IsOldOrNew : All (λ r. fits action r ≡ false) rules → All IsOldOrNew stored_rules
  unfolding IsOldOrNew
  All-IsOldOrNew h =
      All-stored IsOldOrNew
        (All-mono (λ r. fits action r ≡ false) IsOldOrNew rules (λ r p. inl p) h) (inr refl)

  best-new :
      (c : Candidate)
      → All (λ r. fits action r ≡ false) rules
      → best_matching_rule locale_compare action stored_rules ≡ some c
      → c.rule ≡ rule
  unfolding IsOldOrNew
  best-new c misfits best =
      let from = best_matching_rule-IsFrom locale_compare action stored_rules c best in
      let (active, matched) = from.governs in
      elim (holds_of_Member IsOldOrNew c.rule stored_rules from.listed (All-IsOldOrNew misfits)) [
        | inl unfit ↦ let bad : true ≡ false = ground arith in absurd (false≢true (sym bad))
        | inr new ↦ new
      ]

  -- The engine's answer on the store with the rule.
  pub decides :
      (zod : Zod) (mode : PolicyMode) (scope : Option ProxyScope)
      → is_valid_action zod action ≡ true
      → is_shadow mode ≡ false
      → (evaluate_scope action scope).in_scope ≡ true
      → All (λ r. is_valid_rule zod r ≡ true) rules
      → is_valid_rule zod rule ≡ true
      → All (λ r. fits action r ≡ false) rules
      → Governs action rule n
      → decide_from_store zod locale_compare action
          (ok stored_rules)
          (record { mode = mode; scope = scope })
        ≡ decision_from_rule rule mode
  unfolding decide_from_store decide parse_action
  decides zod mode scope valid live governed all_valid rule_valid misfits governs =
      let parsed =
        traverse_valid zod stored_rules
          (All-stored (λ r. is_valid_rule zod r ≡ true) all_valid rule_valid) in
      elim (Option-cases (best_matching_rule locale_compare action stored_rules)) [
        | inl missed ↦ absurd (best-some governs missed)
        | inr (c, best) ↦
            rw (valid, governed, parsed, best)
              (ap (λ r. decision_from_rule r mode) (best-new c misfits best))
      ]
