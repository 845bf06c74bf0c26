-- ===== src/Policy/Conditions.antt =====
-- packages/policy/src/policy-engine.ts: when a rule's structured condition holds of an action.
use liminal_engine.Prelude.{
  String, codes, includes, ◌==◌, Bool, true, false, not, ◌||◌, Option, none, some, [], ◌∷◌,
}
use liminal_engine.Prelude.Int.{ℤ, lt_ℤ, le_ℤ, eq_ℤ}
use liminal_engine.Contracts.Value.{Value, Items, read_path}
use liminal_engine.Contracts.Action.{InterceptedAction}
use liminal_engine.Contracts.PolicyRule.{ConditionField, ConditionOp, ConditionValue, Condition}
use liminal_engine.Policy.Wildcard.{wildcard_match}

abbrev read_target : Option String → Value
read_target none = Value.undefined
read_target (some s) = Value.string s

unfoldable pub read_condition_field : InterceptedAction → ConditionField → Value
unfolding read_path
read_condition_field a ConditionField.tool = Value.string a.tool
read_condition_field a ConditionField.action = Value.string a.action
read_condition_field a ConditionField.target = read_target a.target
read_condition_field a ConditionField.args_force = read_path (Value.object a.args) ("force" ∷ [])
read_condition_field a ConditionField.reviews_approved =
    read_path (Value.object a.args) ("reviews" ∷ "approved" ∷ [])
read_condition_field a ConditionField.reviews_rejected =
    read_path (Value.object a.args) ("reviews" ∷ "rejected" ∷ [])
read_condition_field a ConditionField.repo_visibility =
    read_path (Value.object a.args) ("repo" ∷ "visibility" ∷ [])
read_condition_field a ConditionField.deploy_environment =
    read_path (Value.object a.args) ("deploy" ∷ "environment" ∷ [])

abbrev same_flag : Bool → Bool → Bool
same_flag true b = b
same_flag false b = not b

-- `actual === expected`, where the expected value is a string, a number or a boolean.
unfoldable pub strict_eq : Value → ConditionValue → Bool
strict_eq (Value.string s) (ConditionValue.text t) = s == t
strict_eq (Value.number m) (ConditionValue.number n) = eq_ℤ m n
strict_eq (Value.boolean a) (ConditionValue.flag b) = same_flag a b
strict_eq _ _ = false

-- `typeof` both sides is `"number"`, and they compare.
abbrev pub both_numbers : (ℤ → ℤ → Bool) → Value → ConditionValue → Bool
both_numbers test (Value.number m) (ConditionValue.number n) = test m n
both_numbers test _ _ = false

abbrev some_item : Items → ConditionValue → Bool
some_item Items.nil v = false
some_item (Items.cons x xs) v = strict_eq x v || some_item xs v

abbrev contains_value : Value → ConditionValue → Bool
contains_value (Value.string s) (ConditionValue.text t) = includes (codes t) (codes s)
contains_value (Value.array xs) v = some_item xs v
contains_value _ _ = false

abbrev matches_value : Value → ConditionValue → Bool
matches_value (Value.string s) (ConditionValue.text t) = wildcard_match t s
matches_value _ _ = false

abbrev holds : ConditionOp → Value → ConditionValue → Bool
holds ConditionOp.lt actual v = both_numbers lt_ℤ actual v
holds ConditionOp.le actual v = both_numbers le_ℤ actual v
holds ConditionOp.gt actual v = both_numbers (λ m n. lt_ℤ n m) actual v
holds ConditionOp.ge actual v = both_numbers (λ m n. le_ℤ n m) actual v
holds ConditionOp.eq actual v = strict_eq actual v
holds ConditionOp.ne actual v = not (strict_eq actual v)
holds ConditionOp.contains actual v = contains_value actual v
holds ConditionOp.matches actual v = matches_value actual v

unfoldable pub condition_matches : InterceptedAction → Condition → Bool
unfolding read_condition_field strict_eq
condition_matches action condition =
    holds condition.op (read_condition_field action condition.field) condition.value
