-- ===== src/Contracts/EnforcementAction.antt =====
-- packages/contracts/src/enforcement-action.contract.ts: what an approved correction does.
use liminal_engine.Prelude.{String, Option}
use liminal_engine.Contracts.Value.{Fields}
use liminal_engine.Contracts.Audit.{DealStatus}
use liminal_engine.Contracts.PolicyRule.{EnforcementActionType}

pub record EnforcementAction : Type 0 where
  pub id : String
  pub case_id : String
  pub deal_id : String
  pub from_status : DealStatus
  pub to_status : DealStatus
  pub actor : String
  pub enforced_at : String
  pub action_type : Option EnforcementActionType
  pub target_system : Option String
  pub payload : Option Fields
