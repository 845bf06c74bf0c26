-- ===== src/Policy/Narrow.antt =====
-- packages/policy/src/narrow-policy.ts: replacing a learned rule by one with an exception.
use liminal_engine.Prelude.{
  ◌+◌, Ordering, String, ◌≡◌, refl, sym, ap, ◌∙◌, Bool, true, false, not, ◌&&◌, Option, none, some,
  [], ◌∷◌, Result, ok, ◌>>=◌, >>=-eq-ok, if◌then◌else◌, arith,
}
use liminal_engine.Prelude.Int.{ℤ, pos, negsuc, lt_ℤ, le_ℤ, min_ℤ}
use liminal_engine.Contracts.Action.{InterceptedAction}
use liminal_engine.Contracts.Value.{Value}
use liminal_engine.Contracts.PolicyRule.{
  ConditionField, ConditionOp, ConditionValue, Condition, RuleStatus, ActionPolicyRule,
}
use liminal_engine.Contracts.Zod.{Zod}
use liminal_engine.Contracts.Parsing.{parse_rule, parse_rule-eq}
use liminal_engine.Policy.Conditions.{both_numbers, read_condition_field, condition_matches}
use liminal_engine.Policy.Engine.{best_matching_rule}
use liminal_engine.Policy.Engine.Modes.{best-none_of_misfits}

pub record NarrowedPolicy : Type 0 where
  pub narrowed : ActionPolicyRule
  pub retired : ActionPolicyRule

abbrev is_reviews_approved : ConditionField → Bool
is_reviews_approved ConditionField.reviews_approved = true
is_reviews_approved _ = false

abbrev is_less : ConditionOp → Bool
is_less ConditionOp.lt = true
is_less _ = false

abbrev is_at_least : ConditionOp → Bool
is_at_least ConditionOp.ge = true
is_at_least _ = false

abbrev pub reviews_below : ℤ → Condition
reviews_below n = record {
  field = ConditionField.reviews_approved;
  op = ConditionOp.lt;
  value = ConditionValue.number n;
}

abbrev pub reviews_from : ℤ → Condition
reviews_from n = record {
  field = ConditionField.reviews_approved;
  op = ConditionOp.ge;
  value = ConditionValue.number n;
}

-- Both values are numbers: the condition below the smaller one. Otherwise the original.
abbrev below_both : ConditionValue → ConditionValue → Condition → Condition
below_both (ConditionValue.number a) (ConditionValue.number b) original = reviews_below (min_ℤ a b)
below_both _ _ original = original

unfoldable pub combine_conditions : Option Condition → Condition → Condition
combine_conditions none exception = exception
combine_conditions (some original) exception =
    if is_reviews_approved original.field
      && is_less original.op
      && is_reviews_approved exception.field
      && is_at_least exception.op
    then below_both original.value exception.value original
    else original

unfoldable pub narrow_policy :
    Zod → String → String → ActionPolicyRule → Condition → Result NarrowedPolicy
unfolding combine_conditions
narrow_policy zod new_id now input exception = do
  rule ← parse_rule zod input
  retired ← parse_rule zod (record rule { status = RuleStatus.retired })
  narrowed ← parse_rule zod (record rule {
    id = new_id;
    version = rule.version + 1;
    scope = record rule.scope {
      condition = some (combine_conditions rule.scope.condition exception);
    };
    status = RuleStatus.narrowed;
    supersedes_id = some rule.id;
    created_at = now;
  })
  ok (record { narrowed = narrowed; retired = retired })

below-min : (m a b : ℤ) → lt_ℤ m (min_ℤ a b) ≡ (lt_ℤ m a && not (le_ℤ b m))
below-min (pos m) (pos a) (pos b) = ground arith
below-min (pos m) (pos a) (negsuc b) = ground arith
below-min (pos m) (negsuc a) (pos b) = ground arith
below-min (pos m) (negsuc a) (negsuc b) = ground arith
below-min (negsuc m) (pos a) (pos b) = ground arith
below-min (negsuc m) (pos a) (negsuc b) = ground arith
below-min (negsuc m) (negsuc a) (pos b) = ground arith
below-min (negsuc m) (negsuc a) (negsuc b) = ground arith

-- A condition on fewer than a number of approving reviews, narrowed by an exception from a number
-- of approving reviews on, holds of exactly the actions of which it held and the exception does
-- not.
combine_conditions-excludes :
    (action : InterceptedAction) (a b : ℤ)
    → condition_matches action (combine_conditions (some (reviews_below a)) (reviews_from b)) ≡ (
        condition_matches action (reviews_below a)
        && not (condition_matches action (reviews_from b)))
unfolding combine_conditions condition_matches
combine_conditions-excludes action a b =
    of_value (read_condition_field action ConditionField.reviews_approved)
  where
    of_value :
        (v : Value)
        → both_numbers lt_ℤ v (ConditionValue.number (min_ℤ a b)) ≡ (
            both_numbers lt_ℤ v (ConditionValue.number a)
            && not (both_numbers (λ m n. le_ℤ n m) v (ConditionValue.number b)))
    of_value (Value.number m) = below-min m a b
    of_value Value.undefined = refl
    of_value Value.null = refl
    of_value (Value.boolean x) = refl
    of_value (Value.string s) = refl
    of_value (Value.array xs) = refl
    of_value (Value.object fs) = refl

statuses :
    (zod : Zod) (new_id now : String) (input : ActionPolicyRule) (exception : Condition)
    (out : NarrowedPolicy)
    → narrow_policy zod new_id now input exception ≡ ok out
    → (out.narrowed.status ≡ RuleStatus.narrowed) × (out.retired.status ≡ RuleStatus.retired)
unfolding narrow_policy
statuses zod new_id now input exception out h =
    let (rule, p, h₁) = >>=-eq-ok (parse_rule zod input) _ h in
    let (retired, q, h₂) = >>=-eq-ok (parse_rule zod _) _ h₁ in
    let (narrowed, r, made) = >>=-eq-ok (parse_rule zod _) _ h₂ in
    let same : _ = parse_rule-eq zod _ retired q in
    let same_too : _ = parse_rule-eq zod _ narrowed r in
    let same_out : record { narrowed = narrowed; retired = retired } ≡ out = cc in
    (
      sym (ap (λ o. o.narrowed.status) same_out) ∙ sym (ap ActionPolicyRule.status same_too),
      sym (ap (λ o. o.retired.status) same_out) ∙ sym (ap ActionPolicyRule.status same),
    )

-- After a successful narrowing, neither version of the rule is considered: the engine finds no
-- matching rule in the two of them, for any action.
pub narrow_policy-governs_nothing :
    (zod : Zod) (locale_compare : String → String → Ordering) (new_id now : String)
    (input : ActionPolicyRule) (exception : Condition) (out : NarrowedPolicy)
    (action : InterceptedAction)
    → narrow_policy zod new_id now input exception ≡ ok out
    → best_matching_rule locale_compare action (out.narrowed ∷ out.retired ∷ []) ≡ none
narrow_policy-governs_nothing zod locale_compare new_id now input exception out action h =
    let (n, r) = statuses zod new_id now input exception out h in
    best-none_of_misfits locale_compare action (out.narrowed ∷ out.retired ∷ [])
      (rw n refl, (rw r refl, tt))
