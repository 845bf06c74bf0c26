-- ===== src/Contracts/Objects.antt =====
-- packages/contracts/src/intercepted-action.contract.ts and action-policy-rule.contract.ts: the
-- parsed objects as the values that an audit snapshot stores, and `safeParse` of a stored rule.
pub mod Reading
pub mod Stored
use liminal_engine.Prelude.{
  ℕ, String, ◌==◌, Bool, true, ◌&&◌, Option, none, some, List, [], ◌∷◌, any, if◌then◌else◌,
}
use liminal_engine.Prelude.Int.{ℤ, pos}
use liminal_engine.Contracts.Value.{Value, Items, Fields, get}
use liminal_engine.Contracts.Action.{InterceptedAction}
use liminal_engine.Contracts.PolicyRule.{
  Verdict, ConditionField, ConditionOp, ConditionValue, Condition, RuleScope, RuleEffect,
  RuleStatus, EnforcementActionType, ActionPolicyRule,
}
use liminal_engine.Contracts.Audit.{optional_field, string_array}
use liminal_engine.Contracts.Canonical.Intercepted.{
  rule_verdict_text, canonical_condition, action_type_text, rule_status_text,
}

-- An `InterceptedAction` as a value.
unfoldable pub action_value : InterceptedAction → Value
action_value a = Value.object (
    Fields.field "id" (Value.string a.id) (
      Fields.field "tool" (Value.string a.tool) (
        Fields.field "action" (Value.string a.action) (
          optional_field "target" Value.string a.target (
            Fields.field "args" (Value.object a.args) (
              optional_field "agentId" Value.string a.agent_id (
                optional_field "sessionId" Value.string a.session_id (
                  optional_field "goalId" Value.string a.goal_id (
                    optional_field "lane" Value.string a.lane (
                      Fields.field "requestedAt" (Value.string a.requested_at)
                        Fields.empty))))))))))

abbrev pub scope_value : RuleScope → Value
scope_value s = Value.object (
    Fields.field "tool" (Value.string s.tool) (
      Fields.field "action" (Value.string s.action) (
        optional_field "targetPattern" Value.string s.target_pattern
          (optional_field "condition" canonical_condition s.condition Fields.empty))))

abbrev pub effect_value : RuleEffect → Value
effect_value e = Value.object (
    Fields.field "verdict" (Value.string (rule_verdict_text e.verdict)) (
      Fields.field "actionType" (Value.string (action_type_text e.action_type)) (
        Fields.field "reasons" (string_array e.reasons)
          (Fields.field "requiredBefore" (string_array e.required_before) Fields.empty))))

-- An `ActionPolicyRule` as a value.
unfoldable pub rule_value : ActionPolicyRule → Value
rule_value r = Value.object (
    Fields.field "id" (Value.string r.id) (
      Fields.field "version" (Value.number (pos r.version)) (
        Fields.field "fromCorrectionId" (Value.string r.from_correction_id) (
          Fields.field "evalCaseId" (Value.string r.eval_case_id) (
            Fields.field "scope" (scope_value r.scope) (
              Fields.field "effect" (effect_value r.effect) (
                Fields.field "status" (Value.string (rule_status_text r.status)) (
                  optional_field "supersedesId" Value.string r.supersedes_id
                    (Fields.field "createdAt" (Value.string r.created_at) Fields.empty)))))))))

infixl 5 ◌>>=◌ ◌>>◌
abbrev pub ◌>>=◌ : {A B : Type 0} → Option A → (A → Option B) → Option B
none >>= next = none
some a >>= next = next a

abbrev pub ◌>>◌ : {B : Type 0} → Option (Unit {0}) → Option B → Option B
first >> second = first >>= λ _. second

abbrev pub require : Bool → Option (Unit {0})
require b = if b then some tt else none

-- `z.object({...}).strict()`: no key beside these.
abbrev pub has_only : List String → Fields → Bool
has_only keys Fields.empty = true
has_only keys (Fields.field k v fs) = any (λ key. key == k) keys && has_only keys fs

abbrev pub read_object : List String → Value → Option Fields
read_object keys (Value.object fs) = if has_only keys fs then some fs else none
read_object keys _ = none

abbrev pub read_text : Value → Option String
read_text (Value.string s) = some s
read_text _ = none

-- `.optional()`
abbrev pub read_optional : {A : Type 0} → (Value → Option A) → Value → Option (Option A)
read_optional read Value.undefined = some none
read_optional read v = do a ← read v; some (some a)

abbrev pub read_items : Items → Option (List String)
read_items Items.nil = some []
read_items (Items.cons v vs) = do s ← read_text v; ss ← read_items vs; some (s ∷ ss)

abbrev pub read_texts : Value → Option (List String)
read_texts (Value.array items) = read_items items
read_texts _ = none

abbrev pub read_positive : Value → Option ℕ
read_positive (Value.number (pos n)) = some n
read_positive _ = none

-- `z.enum`: the constructor whose text is given.
abbrev pub choose : {A : Type 0} → List (String × A) → String → Option A
choose [] s = none
choose ((text, a) ∷ rest) s = if text == s then some a else choose rest s

abbrev pub read_enum : {A : Type 0} → List (String × A) → Value → Option A
read_enum options (Value.string s) = choose options s
read_enum options _ = none
