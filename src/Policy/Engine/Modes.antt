-- ===== src/Policy/Engine/Modes.antt =====
-- packages/policy/src/policy-engine.ts: the answer where no rule fits, and how the modes relate.
use liminal_engine.Prelude.{
  Ordering, String, ◌≡◌, refl, Bool, true, false, ◌&&◌, Option, none, some, is_some, List, [], ◌∷◌,
  All, holds_of_Member, ok, traverse, arith, if◌then◌else◌, Option-cases, inl, inr,
}
use liminal_engine.Contracts.Action.{InterceptedAction}
use liminal_engine.Contracts.PolicyRule.{Verdict, is_active, ActionPolicyRule}
use liminal_engine.Contracts.Zod.{Zod}
use liminal_engine.Contracts.Parsing.{is_valid_action, is_valid_rule, parse_action, parse_rule}
use liminal_engine.Policy.Scope.{ProxyScope, evaluate_scope}
use liminal_engine.Policy.Decision.{
  PolicyMode, is_shadow, DecisionSource, DecideDeps, PolicyDecision,
}
use liminal_engine.Policy.Engine.{
  match_specificity, best_matching_rule, decision_from_rule, unmatched_decision, decide,
}
use liminal_engine.Policy.Engine.Selection.{best_matching_rule-IsFrom}

abbrev pub fits : InterceptedAction → ActionPolicyRule → Bool
fits action rule = is_active rule.status && is_some (match_specificity action rule)

pub traverse_valid :
    (zod : Zod) (rules : List ActionPolicyRule)
    → All (λ r. is_valid_rule zod r ≡ true) rules
    → traverse (parse_rule zod) rules ≡ ok rules
unfolding parse_rule
traverse_valid zod [] h = refl
traverse_valid zod (r ∷ rules) (valid, h) = rw (valid, traverse_valid zod rules h) refl

pub best-none_of_misfits :
    (locale_compare : String → String → Ordering) (action : InterceptedAction)
    (rules : List ActionPolicyRule)
    → All (λ r. fits action r ≡ false) rules
    → best_matching_rule locale_compare action rules ≡ none
best-none_of_misfits locale_compare action rules h =
    elim (Option-cases (best_matching_rule locale_compare action rules)) [
      | inl missed ↦ missed
      | inr (c, best) ↦
          let from = best_matching_rule-IsFrom locale_compare action rules c best in
          let unfit : fits action c.rule ≡ false =
            holds_of_Member (λ r. fits action r ≡ false) c.rule rules from.listed h in
          let (active, matched) = from.governs in ground arith
    ]

abbrev unmatched_verdict : PolicyMode → Verdict
unmatched_verdict mode = if is_shadow mode then Verdict.allow else Verdict.ask

unmatched_lem :
    (action : InterceptedAction) (mode : PolicyMode)
    → ((unmatched_decision action mode).verdict ≡ unmatched_verdict mode)
      × ((unmatched_decision action mode).allowed ≡ is_shadow mode)
      × ((unmatched_decision action mode).source ≡ DecisionSource.default_deny)
unmatched_lem action PolicyMode.shadow = (refl, refl, refl)
unmatched_lem action PolicyMode.intercept = (refl, refl, refl)
unmatched_lem action PolicyMode.learned = (refl, refl, refl)

abbrev pub in_mode : PolicyMode → Option ProxyScope → DecideDeps
in_mode mode scope = record { mode = mode; scope = scope }

module _ (zod : Zod) (locale_compare : String → String → Ordering) where
  -- For a valid, governed action and valid rules, none of which is active and fits, the engine
  -- answers by default: ask, not allowed, outside shadow mode, and allow in shadow mode.
  decide_unmatched :
      (action : InterceptedAction) (rules : List ActionPolicyRule) (deps : DecideDeps)
      → is_valid_action zod action ≡ true
      → All (λ r. is_valid_rule zod r ≡ true) rules
      → (evaluate_scope action deps.scope).in_scope ≡ true
      → All (λ r. fits action r ≡ false) rules
      → (d : PolicyDecision) × (decide zod locale_compare action rules deps ≡ ok d)
        × (d.verdict ≡ (if is_shadow deps.mode then Verdict.allow else Verdict.ask))
        × (d.allowed ≡ is_shadow deps.mode)
        × (d.source ≡ DecisionSource.default_deny)
  unfolding decide parse_action
  decide_unmatched action rules deps valid all_valid governed misfits =
      let (verdict, allowed, source) = unmatched_lem action deps.mode in
      (
        unmatched_decision action deps.mode,
        rw
            (
              valid,
              governed,
              traverse_valid zod rules all_valid,
              best-none_of_misfits locale_compare action rules misfits,
            )
            refl,
        verdict,
        allowed,
        source,
      )

  -- Where both modes decide, shadow mode lets everything run, names the rule that intercept mode
  -- names and records the verdict that enforcing it gives; the learned mode decides as the
  -- intercept mode does.
  pub shadow_mirrors :
      (action : InterceptedAction) (rules : List ActionPolicyRule) (scope : Option ProxyScope)
      (s e : PolicyDecision)
      → decide zod locale_compare action rules (in_mode PolicyMode.shadow scope) ≡ ok s
      → decide zod locale_compare action rules (in_mode PolicyMode.intercept scope) ≡ ok e
      → (s.allowed ≡ true)
        × (s.source_rule_id ≡ e.source_rule_id)
        × (s.shadow_verdict ≡ (if is_some e.source_rule_id then some e.verdict else none))
        × (decide zod locale_compare action rules (in_mode PolicyMode.learned scope) ≡ ok e)
  unfolding decide decision_from_rule
  shadow_mirrors action rules scope s e hs he = ground arith
