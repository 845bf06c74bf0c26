-- ===== src/Governance/Correction/Phrases.antt =====
-- The closed phrase table of packages/governance/src/compile-correction.ts.
use liminal_engine.Prelude.{
  ℕ, eqb, ltb, String, template, codes, Bool, true, false, ◌&&◌, ◌||◌, Option, none, some, or_else,
  List, [], ◌∷◌, Result, ok, err, if◌then◌else◌,
}
use liminal_engine.Prelude.Int.{pos}
use liminal_engine.Prelude.Words.{is_space, drop_end, trim, starts_with, contains}
use liminal_engine.Contracts.Action.{InterceptedAction}
use liminal_engine.Contracts.PolicyRule.{
  Verdict, ConditionField, ConditionOp, ConditionValue, Condition, RuleScope, EnforcementActionType,
}
use liminal_engine.Governance.Correction.Atoms.{◌>>=◌, after_word, after_spaces}
use liminal_engine.Governance.Correction.Wording.{is_vague, mentions_rejection}
use liminal_engine.Governance.Correction.Scopes.{
  PartialScope, target_pattern_for, scope_named, scope_of_action, infer_scope_from_text,
}
use Prim.Native.Char.{code}
use Prim.Native.String

pub record Casing : Type 0 where
  pub to_lower_case : String → String
  pub to_upper_case : String → String

pub record Template : Type 0 where
  pub verdict : Verdict
  pub effect_action_type : EnforcementActionType
  pub summary : String
  pub reason : String
  pub required_before : String
  pub scope_override : PartialScope
  pub condition : Option Condition

abbrev is_end_mark : ℕ → Bool
is_end_mark c = eqb c b'.' || eqb c b'?' || eqb c b'!'

-- `replace(/\s+/g, " ")`, after a white space or not.
abbrev squeeze : Bool → String → String
squeeze after String.[] = ""
squeeze after (String.◌∷◌ c s) =
    let spaced = squeeze true s in
    let plain = squeeze false s in
    if is_space (code c)
    then (if after then spaced else String.◌++◌ " " spaced)
    else String.◌∷◌ c plain

-- `scopeFor`: the action's own scope, what the template overrides, and its condition.
unfoldable pub scope_for : Template → Option InterceptedAction → RuleScope
unfolding target_pattern_for
scope_for t originating =
    let base = scope_of_action originating in
    record {
      tool = or_else t.scope_override.tool (or_else base.tool "*");
      action = or_else t.scope_override.action (or_else base.action "*");
      target_pattern = first_of t.scope_override.target_pattern base.target_pattern;
      condition = first_of t.condition t.scope_override.condition;
    }
  where
    first_of : {A : Type 0} → Option A → Option A → Option A
    first_of none second = second
    first_of (some a) second = some a

-- `atom.replace(/^phrase\s+/i, "").trim()`
abbrev without_phrase : String → String → String
without_phrase phrase atom =
    trim (or_else (do rest ← after_word (codes phrase) atom; after_spaces rest) atom)

-- A chain of `if`s that return: the answer at the first test that holds, or the last one.
abbrev pub first_holding : {A : Type 0} → List (Bool × A) → A → A
first_holding [] last = last
first_holding ((test, a) ∷ rest) last =
    let other = first_holding rest last in if test then a else other

module _ (casing : Casing) where
  unfoldable pub normalize : String → String
  normalize value = squeeze false (drop_end is_end_mark (casing.to_lower_case (trim value)))

  -- `charAt(0).toUpperCase()` and the rest. Half of an astral character has no upper case.
  abbrev capitalize : String → String
  capitalize String.[] = ""
  capitalize (String.◌∷◌ c s) =
      if ltb (code c) 0x10000
      then String.◌++◌ (casing.to_upper_case (String.◌∷◌ c "")) s
      else String.◌∷◌ c s

  unfoldable pub sentence : String → String
  sentence value = template (capitalize (drop_end is_end_mark (trim value)) ∷ "." ∷ [])

  abbrev says_two_reviewers : String → Bool
  says_two_reviewers normalized =
      contains normalized "both reviewers approving"
      || contains normalized "two reviewers approving"
      || contains normalized "2 reviewers approving"

  abbrev review_condition : ConditionField → ConditionOp → ℕ → Option Condition
  review_condition field op n =
      some (record { field = field; op = op; value = ConditionValue.number (pos n) })

  abbrev merge_template : String → String → String → Option Condition → Template
  merge_template atom summary required condition = record {
    verdict = Verdict.deny;
    effect_action_type = EnforcementActionType.block_agent_action;
    summary = summary;
    reason = sentence atom;
    required_before = required;
    scope_override = scope_named "gh" "pr-merge" (some "PR#*") none;
    condition = condition;
  }

  abbrev inferred_template :
      Verdict
      → EnforcementActionType
      → String
      → Option InterceptedAction
      → List String
      → List String
      → Template
  inferred_template verdict action_type atom originating summary required = record {
    verdict = verdict;
    effect_action_type = action_type;
    summary = template summary;
    reason = sentence atom;
    required_before = template required;
    scope_override = infer_scope_from_text (normalize atom) originating;
    condition = none;
  }

  -- The tests in their order, each with what is returned where it holds.
  unfoldable pub phrase_table : String → Option InterceptedAction → List (Bool × Result Template)
  unfolding is_vague mentions_rejection normalize sentence infer_scope_from_text
  phrase_table atom originating =
      let normalized = normalize atom in
      let asked = without_phrase "ask before" atom in
      let required = without_phrase "always include" atom in
      ((
        is_vague normalized,
        err (
            template (
              "vague correction '" ∷ atom
              ∷ "' rejected; use a concrete template such as 'never do X' or 'ask before Y'" ∷ [])),
      )
        ∷ (
          contains normalized "merge" && says_two_reviewers normalized,
          ok (
              merge_template atom "deny PR merges until two reviewer approvals exist"
                "Collect at least two approving reviews before merging."
                (review_condition ConditionField.reviews_approved ConditionOp.lt 2)),
        )
        ∷ (
          contains normalized "merge" && mentions_rejection normalized,
          ok (
              merge_template atom "deny PR merges while any review is rejected"
                "Resolve every rejecting review before merging."
                (review_condition ConditionField.reviews_rejected ConditionOp.ge 1)),
        )
        ∷ (
          starts_with normalized "never ",
          ok (
              inferred_template Verdict.deny EnforcementActionType.block_agent_action atom
                originating ("deny actions matching '" ∷ atom ∷ "'" ∷ [])
                ("Route this action class through an explicit operator correction before retrying."
                  ∷ [])),
        )
        ∷ (
          starts_with normalized "ask before ",
          ok (
              inferred_template Verdict.ask EnforcementActionType.require_approval atom originating
                ("require operator approval before " ∷ asked ∷ [])
                ("Receive operator approval before " ∷ asked ∷ "." ∷ [])),
        )
        ∷ (
          starts_with normalized "always include ",
          ok (
              inferred_template Verdict.deny EnforcementActionType.block_agent_action atom
                originating ("require output to include " ∷ required ∷ [])
                ("Include " ∷ required ∷ " before completing the action." ∷ [])),
        )
        ∷ (
          starts_with normalized "match this shape",
          ok (
              inferred_template Verdict.ask EnforcementActionType.generate_eval atom originating
                ("require schema-shape review before completion" ∷ [])
                ("Attach a passing eval for the requested output shape." ∷ [])),
        )
        ∷ (
          contains normalized "hard requirement" || contains normalized "honor it before",
          ok (
              inferred_template Verdict.ask EnforcementActionType.require_approval atom originating
                ("require approval before bypassing correction '" ∷ atom ∷ "'" ∷ [])
                ("Show the hard requirement is honored before proceeding." ∷ [])),
        )
        ∷ [])

  abbrev pub unsupported : String → Result Template
  unsupported atom = err (
      template (
        "unsupported correction '" ∷ atom
        ∷ "'; supported templates are 'always include X', 'never do X', 'ask before Y', and 'match this shape'"
        ∷ []))

  unfoldable pub template_for : String → Option InterceptedAction → Result Template
  unfolding phrase_table
  template_for atom originating = first_holding (phrase_table atom originating) (unsupported atom)
