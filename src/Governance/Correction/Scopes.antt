-- ===== src/Governance/Correction/Scopes.antt =====
-- The scopes that packages/governance/src/compile-correction.ts infers from an atom.
use liminal_engine.Prelude.{
  ℕ, String, codes, Bool, true, false, ◌&&◌, ◌||◌, Option, none, some, List, [], ◌∷◌, all,
  if◌then◌else◌,
}
use liminal_engine.Prelude.Words.{is_digit, contains}
use liminal_engine.Contracts.Action.{InterceptedAction}
use liminal_engine.Contracts.PolicyRule.{ConditionField, ConditionOp, ConditionValue, Condition}
use liminal_engine.Governance.Correction.Wording.{strip}

-- `Partial<ActionPolicyRuleScope>`
pub record PartialScope : Type 0 where
  pub tool : Option String
  pub action : Option String
  pub target_pattern : Option String
  pub condition : Option Condition

-- `/^PR#\d+$/.test(target)`
abbrev pub is_number_of : Option (List ℕ) → Bool
is_number_of none = false
is_number_of (some []) = false
is_number_of (some (c ∷ s)) = is_digit c && all is_digit s

unfoldable pub target_pattern_for : String → String
target_pattern_for target =
    if is_number_of (strip (codes "PR#") (codes target)) then "PR#*" else target

abbrev pub optional_pattern : Option String → Option String
optional_pattern none = none
optional_pattern (some target) = some (target_pattern_for target)

abbrev pub no_scope : PartialScope
no_scope = record { tool = none; action = none; target_pattern = none; condition = none }

abbrev pub scope_named : String → String → Option String → Option Condition → PartialScope
scope_named tool action pattern condition = record {
  tool = some tool;
  action = some action;
  target_pattern = pattern;
  condition = condition;
}

abbrev pub scope_of_action : Option InterceptedAction → PartialScope
scope_of_action none = no_scope
scope_of_action (some a) = scope_named a.tool a.action (optional_pattern a.target) none

unfoldable pub infer_scope_from_text : String → Option InterceptedAction → PartialScope
unfolding target_pattern_for
infer_scope_from_text normalized originating =
    if contains normalized "push --force" || contains normalized "force push"
    then scope_named "git" "push" none (
        some (record {
          field = ConditionField.args_force;
          op = ConditionOp.eq;
          value = ConditionValue.flag true;
        }))
    else if contains normalized "fork"
    then scope_named "gh" "repo-fork" none none
    else if contains normalized "visibility"
    then scope_named "gh" "repo-edit-visibility" none none
    else if contains normalized "deploy"
    then scope_named "deploy" "deploy" none none
    else if contains normalized "merge"
    then scope_named "gh" "pr-merge" (some "PR#*") none
    else scope_of_action originating
