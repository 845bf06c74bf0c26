-- ===== src/Contracts/AgentOutput.antt =====
-- packages/contracts/src/agent-output.contract.ts: what an agent reported for a deal.
use liminal_engine.Prelude.{ℕ, String, Option, List}
use liminal_engine.Contracts.Audit.{DealStatus}

pub record AgentMetadata : Type 0 where
  pub agent : String
  pub model : String
  pub artifacts : List String

pub record AgentOutput : Type 0 where
  pub id : String
  pub deal_id : String
  pub deal_name : String
  pub pass_number : ℕ
  pub reported_status : DealStatus
  pub summary : String
  pub dropped_requirements : List String
  pub agent_metadata : Option AgentMetadata
