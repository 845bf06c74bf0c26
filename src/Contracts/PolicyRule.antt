-- ===== src/Contracts/PolicyRule.antt =====
-- packages/contracts/src/action-policy-rule.contract.ts: the shape of a learned rule.
use liminal_engine.Prelude.{ℕ, String, Bool, true, false, Option, List}
use liminal_engine.Prelude.Int.{ℤ}

pub data Verdict : Type 0 where
  allow deny ask : Verdict

abbrev pub is_allow : Verdict → Bool
is_allow Verdict.allow = true
is_allow _ = false

abbrev pub is_ask : Verdict → Bool
is_ask Verdict.ask = true
is_ask _ = false

pub data ConditionField : Type 0 where
  tool action target args_force reviews_approved reviews_rejected : ConditionField
  repo_visibility deploy_environment : ConditionField

pub data ConditionOp : Type 0 where
  lt le gt ge eq ne contains matches : ConditionOp

pub data ConditionValue : Type 0 where
  text : String → ConditionValue
  number : ℤ → ConditionValue
  flag : Bool → ConditionValue

pub record Condition : Type 0 where
  pub field : ConditionField
  pub op : ConditionOp
  pub value : ConditionValue

pub record RuleScope : Type 0 where
  pub tool : String
  pub action : String
  pub target_pattern : Option String
  pub condition : Option Condition

-- packages/contracts/src/enforcement-action.contract.ts: the closed set of enforcement effects.
pub data EnforcementActionType : Type 0 where
  change_status create_linear_workstream assign_owner block_agent_action : EnforcementActionType
  require_approval generate_eval activate_policy record_audit_event : EnforcementActionType

pub record RuleEffect : Type 0 where
  pub verdict : Verdict
  pub action_type : EnforcementActionType
  pub reasons : List String
  pub required_before : List String

pub data RuleStatus : Type 0 where
  proposed active narrowed retired : RuleStatus

abbrev pub is_active : RuleStatus → Bool
is_active RuleStatus.active = true
is_active _ = false

abbrev pub is_narrowed : RuleStatus → Bool
is_narrowed RuleStatus.narrowed = true
is_narrowed _ = false

pub record ActionPolicyRule : Type 0 where
  pub id : String
  pub version : ℕ
  pub from_correction_id : String
  pub eval_case_id : String
  pub scope : RuleScope
  pub effect : RuleEffect
  pub status : RuleStatus
  pub supersedes_id : Option String
  pub created_at : String
