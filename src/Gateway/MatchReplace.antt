-- ===== src/Gateway/MatchReplace.antt =====
-- packages/integrations/intercept-gateway/src/match-replace.ts: rules that rewrite an action before it
-- is decided.
pub mod Writes
use liminal_engine.Prelude.{
  String, template, ◌==◌, Bool, true, false, not, ◌&&◌, ◌||◌, Option, none, some, or_else, List, [],
  ◌∷◌, ◌++◌, filter, Result, ok, err, ◌>>=◌, if◌then◌else◌,
}
use liminal_engine.Prelude.Words.{is_empty, trim, split_at}
use liminal_engine.Contracts.Value.{Value, Fields, get, read_path}
use liminal_engine.Contracts.Action.{InterceptedAction}
use liminal_engine.Contracts.PolicyRule.{ConditionValue}
use liminal_engine.Contracts.Canonical.Intercepted.{condition_value}
use liminal_engine.Contracts.Zod.{Zod}
use liminal_engine.Contracts.Parsing.{parse_action}
use liminal_engine.Policy.Conditions.{strict_eq}
use liminal_engine.Policy.Wildcard.{wildcard_match}

pub data MatchReplaceField : Type 0 where
  tool action target args : MatchReplaceField

pub data MatchMode : Type 0 where
  literal wildcard : MatchMode

-- `match` and `replace` are a string, a number or a boolean.
pub record MatchReplaceRule : Type 0 where
  pub id : String
  pub enabled : Bool
  pub field : MatchReplaceField
  pub arg_path : Option String
  pub match : ConditionValue
  pub replace : ConditionValue
  pub mode : Option MatchMode

pub record MatchReplaceResult : Type 0 where
  pub action : InterceptedAction
  pub applied_rule_ids : List String

abbrev matches_text : Value → ConditionValue → Bool
matches_text (Value.string s) (ConditionValue.text pattern) = wildcard_match pattern s
matches_text _ _ = false

-- `matches`
unfoldable pub matches : Value → ConditionValue → MatchMode → Bool
matches current expected MatchMode.literal = strict_eq current expected
matches current expected MatchMode.wildcard = matches_text current expected

-- Assigning a key: where it stands, or after the others.
unfoldable pub set : String → Value → Fields → Fields
set key v Fields.empty = Fields.field key v Fields.empty
set key v (Fields.field k w fs) =
    let rest = set key v fs in if k == key then Fields.field k v fs else Fields.field k w rest

abbrev pub object_or_empty : Value → Fields
object_or_empty (Value.object fs) = fs
object_or_empty _ = Fields.empty

abbrev pub has_key : String → Fields → Bool
has_key key Fields.empty = false
has_key key (Fields.field k v fs) = k == key || has_key key fs

-- The key names the prototype of the object, not one of its own fields.
abbrev pub names_prototype : String → Fields → Bool
names_prototype key fs = key == "__proto__" && not (has_key key fs)

-- `writePath`: the fields of the copy that it returns. The last key of an empty path reads as
-- `undefined`. Where a key names the prototype, a replacement, which is no object, is not assigned,
-- and a longer path goes on in the prototype that all objects share: the copy's own fields stay. What
-- such a path leaves in that prototype is outside the model.
unfoldable pub write_path : Fields → List String → Value → Fields
unfolding set
write_path fs [] v = set "undefined" v fs
write_path fs (key ∷ []) v = if names_prototype key fs then fs else set key v fs
write_path fs (key ∷ next ∷ path) v =
    let inner = write_path (object_or_empty (get key fs)) (next ∷ path) v in
    if names_prototype key fs then fs else set key (Value.object inner) fs

abbrev field_name : MatchReplaceField → String
field_name MatchReplaceField.tool = "tool"
field_name MatchReplaceField.action = "action"
field_name MatchReplaceField.target = "target"
field_name MatchReplaceField.args = "args"

abbrev optional_text : Option String → Value
optional_text none = Value.undefined
optional_text (some s) = Value.string s

-- `action[rule.field]`
abbrev pub read_field : MatchReplaceField → InterceptedAction → Value
read_field MatchReplaceField.tool a = Value.string a.tool
read_field MatchReplaceField.action a = Value.string a.action
read_field MatchReplaceField.target a = optional_text a.target
read_field MatchReplaceField.args a = Value.object a.args

-- `{ ...action, [rule.field]: text }` for the three fields that are texts.
abbrev write_field : MatchReplaceField → String → InterceptedAction → InterceptedAction
write_field MatchReplaceField.tool s a = record a { tool = s }
write_field MatchReplaceField.action s a = record a { action = s }
write_field MatchReplaceField.target s a = record a { target = some s }
write_field MatchReplaceField.args s a = a

module _ (zod : Zod) where
  abbrev changed : Result InterceptedAction → Result (Option InterceptedAction)
  changed (ok a) = ok (some a)
  changed (err message) = err message

  abbrev replace_text :
      InterceptedAction → MatchReplaceRule → ConditionValue → Result (Option InterceptedAction)
  replace_text a rule (ConditionValue.text s) =
      changed (parse_action zod (write_field rule.field s a))
  replace_text a rule _ = err (
      template (
        "match-replace rule "
        ∷ rule.id
        ∷ " must replace "
        ∷ field_name rule.field
        ∷ " with a string"
        ∷ []))

  abbrev in_field : InterceptedAction → MatchReplaceRule → Result (Option InterceptedAction)
  in_field a rule =
      if matches (read_field rule.field a) rule.match (or_else rule.mode MatchMode.literal)
      then replace_text a rule rule.replace
      else ok none

  -- The parts of the path that are not empty.
  abbrev pub path_of : String → List String
  path_of arg_path = filter (λ part. not (is_empty part)) (split_at b'.' arg_path)

  abbrev in_args :
      InterceptedAction → MatchReplaceRule → Option String → Result (Option InterceptedAction)
  in_args a rule none =
      err (template ("match-replace rule " ∷ rule.id ∷ " on args requires argPath" ∷ []))
  in_args a rule (some arg_path) =
      if is_empty (trim arg_path)
      then err (template ("match-replace rule " ∷ rule.id ∷ " on args requires argPath" ∷ []))
      else if matches (read_path (Value.object a.args) (path_of arg_path)) rule.match
          (or_else rule.mode MatchMode.literal)
      then changed (
          parse_action zod (record a {
            args = write_path a.args (path_of arg_path) (condition_value rule.replace);
          }))
      else ok none

  abbrev by_field :
      InterceptedAction → MatchReplaceRule → MatchReplaceField → Result (Option InterceptedAction)
  by_field a rule MatchReplaceField.args = in_args a rule rule.arg_path
  by_field a rule _ = in_field a rule

  -- `applyRule`: `none` is the action itself, which the caller tells by its identity.
  unfoldable pub apply_rule :
      InterceptedAction → MatchReplaceRule → Result (Option InterceptedAction)
  apply_rule a rule = by_field a rule rule.field

  abbrev pub applied :
      MatchReplaceResult → MatchReplaceRule → Option InterceptedAction → MatchReplaceResult
  applied r rule none = r
  applied r rule (some a) = record {
    action = a;
    applied_rule_ids = r.applied_rule_ids ++ rule.id ∷ [];
  }

  -- One round of the loop.
  abbrev pub apply_enabled : MatchReplaceResult → MatchReplaceRule → Result MatchReplaceResult
  apply_enabled r rule =
      if not rule.enabled
      then ok r
      else do next ← apply_rule r.action rule; ok (applied r rule next)

  unfoldable pub apply_from : MatchReplaceResult → List MatchReplaceRule → Result MatchReplaceResult
  apply_from r [] = ok r
  apply_from r (rule ∷ rules) = do next ← apply_enabled r rule; apply_from next rules

  unfoldable pub apply_match_replace_rules :
      InterceptedAction → List MatchReplaceRule → Result MatchReplaceResult
  unfolding apply_from apply_rule
  apply_match_replace_rules input rules = do
    parsed ← parse_action zod input
    apply_from (record { action = parsed; applied_rule_ids = [] }) rules
