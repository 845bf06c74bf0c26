-- ===== src/Contracts/Requirement.antt =====
-- packages/contracts/src/requirement.contract.ts: a user-authored requirement.
use liminal_engine.Prelude.{String, Option, List}

pub data RequirementSeverity : Type 0 where
  hard soft info : RequirementSeverity

pub data RequirementStatus : Type 0 where
  proposed active rejected retired : RequirementStatus

pub data RequirementCreatedBy : Type 0 where
  operator bulk_import proposal : RequirementCreatedBy

pub record Requirement : Type 0 where
  pub id : String
  pub goal_id : String
  pub deal_id : String
  pub text : String
  pub owner_role : String
  pub severity : RequirementSeverity
  pub scope : List String
  pub status : RequirementStatus
  pub created_by : RequirementCreatedBy
  pub approved_by : Option String
  pub evidence_refs : List String
  pub created_at : String
  pub activated_at : Option String
