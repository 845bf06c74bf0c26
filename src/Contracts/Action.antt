-- ===== src/Contracts/Action.antt =====
-- packages/contracts/src/intercepted-action.contract.ts: an action held at the gateway.
use liminal_engine.Prelude.{String, Option}
use liminal_engine.Contracts.Value.{Fields}

pub record InterceptedAction : Type 0 where
  pub id : String
  pub tool : String
  pub action : String
  pub target : Option String
  pub args : Fields
  pub agent_id : Option String
  pub session_id : Option String
  pub goal_id : Option String
  pub lane : Option String
  pub requested_at : String
