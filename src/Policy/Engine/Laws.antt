-- ===== src/Policy/Engine/Laws.antt =====
-- packages/policy/src/policy-engine.ts: who can allow an action, and which rule wins.
use liminal_engine.Prelude.{
  ℕ, ◌<◌, Ordering, String, ◌≡◌, refl, inl, inr, true, false, Option, none, some, List, Member,
  Result, ok, err, Result-cases, arith, Bool-cases, Option-cases,
}
use liminal_engine.Prelude.Sorting.{IsConsistent}
use liminal_engine.Contracts.Action.{InterceptedAction}
use liminal_engine.Contracts.PolicyRule.{Verdict, is_allow, ActionPolicyRule}
use liminal_engine.Contracts.Zod.{Zod}
use liminal_engine.Contracts.Parsing.{is_valid_action}
use liminal_engine.Policy.Scope.{evaluate_scope}
use liminal_engine.Policy.Decision.{PolicyMode, is_shadow, DecideDeps, PolicyDecision}
use liminal_engine.Policy.Engine.{
  Candidate, verdict_rank, best_matching_rule, decision_from_rule, unmatched_decision, decide_by,
  decide, decide_from_store,
}
use liminal_engine.Policy.Engine.Reached.{Reached, outside, inside, decide-Reached}
use liminal_engine.Policy.Engine.Selection.{
  Governs, IsOutranked, best_matching_rule-IsFrom, best_matching_rule-none,
  best_matching_rule-IsOutranked,
}

-- Outside shadow mode an unmatched action does not run, and a matched one as its rule says.
unmatched_not_allowed :
    (action : InterceptedAction) (mode : PolicyMode)
    → is_shadow mode ≡ false
    → (unmatched_decision action mode).allowed ≡ true
    → ⊥
unmatched_not_allowed action PolicyMode.shadow p q = cc
unmatched_not_allowed action PolicyMode.intercept p q = cc
unmatched_not_allowed action PolicyMode.learned p q = cc

decision_from_rule_allowed :
    (rule : ActionPolicyRule) (mode : PolicyMode)
    → is_shadow mode ≡ false
    → (decision_from_rule rule mode).allowed ≡ true
    → (is_allow rule.effect.verdict ≡ true)
      × ((decision_from_rule rule mode).source_rule_id ≡ some rule.id)
unfolding decision_from_rule
decision_from_rule_allowed rule PolicyMode.shadow p q = cc
decision_from_rule_allowed rule PolicyMode.intercept p q = (q, refl)
decision_from_rule_allowed rule PolicyMode.learned p q = (q, refl)

stricter_outranks :
    (c : Candidate) (rule : ActionPolicyRule) (n : ℕ)
    → rule.effect.verdict ≡ Verdict.deny
    → is_allow c.rule.effect.verdict ≡ true
    → c.verdict_rank ≡ verdict_rank c.rule.effect.verdict
    → IsOutranked rule n c
    → n < c.specificity
stricter_outranks c rule n denies allows ranked order = ground arith

module _ (zod : Zod) (locale_compare : String → String → Ordering) where
  -- A decision on a governed action comes from the best rule, or from none.
  decided_by :
      (action : InterceptedAction) (rules : List ActionPolicyRule) (deps : DecideDeps)
      (d : PolicyDecision)
      → (evaluate_scope action deps.scope).in_scope ≡ true
      → Reached zod locale_compare action rules deps d
      → d ≡ decide_by action deps.mode (best_matching_rule locale_compare action rules)
  decided_by action rules deps d governed (outside o _) = cc
  decided_by action rules deps d governed (inside _ _ e) = e

  -- What stands behind an answer that lets the action run.
  pub data IsJustified (action : InterceptedAction) (rules : List ActionPolicyRule)
      (deps : DecideDeps) (d : PolicyDecision) : Type 0 where
    not_governed :
        (evaluate_scope action deps.scope).in_scope ≡ false → IsJustified action rules deps d
    observed_only : is_shadow deps.mode ≡ true → IsJustified action rules deps d
    by_rule :
        (rule : ActionPolicyRule) (n : ℕ)
        → Member rule rules
        → Governs action rule n
        → is_allow rule.effect.verdict ≡ true
        → d.source_rule_id ≡ some rule.id
        → IsJustified action rules deps d

  justify :
      (action : InterceptedAction) (rules : List ActionPolicyRule) (deps : DecideDeps)
      (best : Option Candidate)
      → best_matching_rule locale_compare action rules ≡ best
      → is_shadow deps.mode ≡ false
      → (decide_by action deps.mode best).allowed ≡ true
      → IsJustified action rules deps (decide_by action deps.mode best)
  justify action rules deps none e m h = absurd (unmatched_not_allowed action deps.mode m h)
  justify action rules deps (some c) e m h =
      let from = best_matching_rule-IsFrom locale_compare action rules c e in
      let (allows, named) = decision_from_rule_allowed c.rule deps.mode m h in
      by_rule c.rule c.specificity from.listed from.governs allows named

  decide-IsJustified :
      (action : InterceptedAction) (rules : List ActionPolicyRule) (deps : DecideDeps)
      (d : PolicyDecision)
      → Reached zod locale_compare action rules deps d
      → d.allowed ≡ true
      → IsJustified action rules deps d
  decide-IsJustified action rules deps d (outside o _) h = not_governed o
  decide-IsJustified action rules deps d (inside i valid e) h =
      elim (Bool-cases (is_shadow deps.mode)) [
        | inl s ↦ observed_only s
        | inr m ↦ rw e (
            justify action rules deps (best_matching_rule locale_compare action rules) refl m
              (rw e at h))
      ]

  -- An answer of the engine that lets an action run was decided, for a valid action, from rules
  -- that the store did return, and is justified: the action is out of scope, the mode is shadow, or
  -- an active rule of the store that fits the action allows it and is named. A store or a parse
  -- that throws never lets an action run.
  pub decide_from_store-IsJustified :
      (action : InterceptedAction) (active_rules : Result (List ActionPolicyRule))
      (deps : DecideDeps)
      → (decide_from_store zod locale_compare action active_rules deps).allowed ≡ true
      → (rules : List ActionPolicyRule) × (active_rules ≡ ok rules)
        × (is_valid_action zod action ≡ true)
        × IsJustified action rules deps
            (decide_from_store zod locale_compare action active_rules deps)
  unfolding decide_from_store
  decide_from_store-IsJustified action (err e) deps h = cc
  decide_from_store-IsJustified action (ok rules) deps h =
      elim (Result-cases (decide zod locale_compare action rules deps)) [
        | inr (e, thrown) ↦ absurd (deny_holds (rw thrown at h))
        | inl (d, decided) ↦
            let (valid, reached) = decide-Reached zod locale_compare action rules deps d decided in
            (
              rules,
              refl,
              valid,
              rw decided (decide-IsJustified action rules deps d reached (rw decided at h)),
            )
      ]
    where
      deny_holds : false ≡ true → ⊥
      deny_holds p = cc

  -- The field allowed says the same as the verdict, on every path, errors included.
  pub decide_from_store-allowed :
      (action : InterceptedAction) (active_rules : Result (List ActionPolicyRule))
      (deps : DecideDeps)
      → (decide_from_store zod locale_compare action active_rules deps).allowed
        ≡ is_allow (decide_from_store zod locale_compare action active_rules deps).verdict
  unfolding decide_from_store decide decision_from_rule
  decide_from_store-allowed action active_rules deps = ground arith

  -- With a consistent collation, a governed action that an active rule denies runs outside shadow
  -- mode only on the word of an allowing active rule with a strictly more specific fit, which the
  -- decision names.
  pub deny_wins :
      (action : InterceptedAction) (rules : List ActionPolicyRule) (deps : DecideDeps)
      (d : PolicyDecision) (rule : ActionPolicyRule) (n : ℕ)
      → IsConsistent locale_compare
      → decide zod locale_compare action rules deps ≡ ok d
      → d.allowed ≡ true
      → (evaluate_scope action deps.scope).in_scope ≡ true
      → is_shadow deps.mode ≡ false
      → Member rule rules
      → Governs action rule n
      → rule.effect.verdict ≡ Verdict.deny
      → (winner : ActionPolicyRule) × (m : ℕ) × Member winner rules
        × Governs action winner m
        × (winner.effect.verdict ≡ Verdict.allow)
        × (n < m)
        × (d.source_rule_id ≡ some winner.id)
  deny_wins action rules deps d rule n lawful e allowed governed mode m g denies =
      let made =
        decided_by action rules deps d governed
          (decide-Reached zod locale_compare action rules deps d e).1 in
      elim (Option-cases (best_matching_rule locale_compare action rules)) [
        | inl missed ↦
            absurd (best_matching_rule-none locale_compare action rules rule n missed m g)
        | inr (c, best) ↦
            let from = best_matching_rule-IsFrom locale_compare action rules c best in
            let made_by : d ≡ decision_from_rule c.rule deps.mode = rw best at made in
            let (allows, named) =
              decision_from_rule_allowed c.rule deps.mode mode (rw made_by at allowed) in
            let order =
              best_matching_rule-IsOutranked locale_compare action rules c rule n lawful best m g in
            (
              c.rule,
              c.specificity,
              from.listed,
              from.governs,
              ground arith,
              stricter_outranks c rule n denies allows from.ranked order,
              rw made_by named,
            )
      ]
