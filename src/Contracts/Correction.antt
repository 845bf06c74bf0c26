-- ===== src/Contracts/Correction.antt =====
-- packages/contracts/src/correction-event.contract.ts and eval-case.contract.ts: what an operator
-- said, and the case that the next pass is graded against.
use liminal_engine.Prelude.{String}

pub record CorrectionEvent : Type 0 where
  pub id : String
  pub case_id : String
  pub deal_id : String
  pub correction : String
  pub deciding_actor : String
  pub corrected_at : String

pub record EvalCase : Type 0 where
  pub id : String
  pub deal_id : String
  pub governance_case_id : String
  pub criterion : String
  pub created_at : String
