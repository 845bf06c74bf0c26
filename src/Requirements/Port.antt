-- ===== src/Requirements/Port.antt =====
-- packages/governance/src/requirement-ports.ts: what the requirement store takes and returns, and
-- the errors that packages/integrations/requirement-store/src/index.ts builds.
use liminal_engine.Prelude.{String, template, Option, none, some, List, [], ◌∷◌}
use liminal_engine.Contracts.Requirement.{
  RequirementSeverity, RequirementStatus, RequirementCreatedBy,
}

pub record RequirementDraft : Type 0 where
  pub goal_id : String
  pub deal_id : String
  pub text : String
  pub owner_role : String
  pub severity : RequirementSeverity
  pub scope : List String
  pub created_by : RequirementCreatedBy
  pub evidence_refs : List String

pub record RequirementAmendment : Type 0 where
  pub text : Option String
  pub owner_role : Option String
  pub severity : Option RequirementSeverity
  pub scope : Option (List String)
  pub evidence_refs : Option (List String)

pub data RequirementStoreErrorCode : Type 0 where
  not_found invalid_transition duplicate validation store_unavailable : RequirementStoreErrorCode

pub record RequirementStoreError : Type 0 where
  pub code : RequirementStoreErrorCode
  pub message : String
  pub id : Option String
  pub from_status : Option RequirementStatus
  pub to_status : Option RequirementStatus

pub data StoreResult (A : Type 0) : Type 0 where
  value : A → StoreResult A
  error : RequirementStoreError → StoreResult A

pub data FailClosed (A : Type 0) : Type 0 where
  proceed : A → FailClosed A
  refuse : String → FailClosed A

abbrev pub status_name : RequirementStatus → String
status_name RequirementStatus.proposed = "proposed"
status_name RequirementStatus.active = "active"
status_name RequirementStatus.rejected = "rejected"
status_name RequirementStatus.retired = "retired"

abbrev code_name : RequirementStoreErrorCode → String
code_name RequirementStoreErrorCode.not_found = "not_found"
code_name RequirementStoreErrorCode.invalid_transition = "invalid_transition"
code_name RequirementStoreErrorCode.duplicate = "duplicate"
code_name RequirementStoreErrorCode.validation = "validation"
code_name RequirementStoreErrorCode.store_unavailable = "store_unavailable"

abbrev pub missing : String → RequirementStoreError
missing id = record {
  code = RequirementStoreErrorCode.not_found;
  message = template ("no requirement with id \"" ∷ id ∷ "\"" ∷ []);
  id = some id;
  from_status = none;
  to_status = none;
}

abbrev pub illegal :
    String
    → RequirementStatus
    → RequirementStatus
    → String
    → RequirementStatus
    → RequirementStoreError
illegal id from_status to_status verb required = record {
  code = RequirementStoreErrorCode.invalid_transition;
  message = template (
      "cannot "
      ∷ verb
      ∷ " a "
      ∷ status_name from_status
      ∷ " requirement (only "
      ∷ status_name required
      ∷ " → "
      ∷ status_name to_status
      ∷ ")"
      ∷ []);
  id = some id;
  from_status = some from_status;
  to_status = some to_status;
}

-- What `guard` makes of a throw.
abbrev pub unavailable : String → RequirementStoreError
unavailable thrown = record {
  code = RequirementStoreErrorCode.store_unavailable;
  message = template ("requirement store failed: " ∷ thrown ∷ []);
  id = none;
  from_status = none;
  to_status = none;
}

abbrev pub collision : String → RequirementStoreError
collision id = record {
  code = RequirementStoreErrorCode.duplicate;
  message = template ("a requirement with id \"" ∷ id ∷ "\" already exists" ∷ []);
  id = some id;
  from_status = none;
  to_status = none;
}

abbrev pub malformed : String → String → RequirementStoreError
malformed id issues = record {
  code = RequirementStoreErrorCode.validation;
  message = template ("requirement violates its contract: " ∷ issues ∷ []);
  id = some id;
  from_status = none;
  to_status = none;
}

abbrev pub finished : String → RequirementStatus → RequirementStoreError
finished id from_status = record {
  code = RequirementStoreErrorCode.invalid_transition;
  message =
      template ("cannot amend a " ∷ status_name from_status ∷ " requirement — it is terminal" ∷ []);
  id = some id;
  from_status = some from_status;
  to_status = none;
}

unfoldable pub fail_closed : {A : Type 0} → StoreResult A → FailClosed A
fail_closed (value a) = proceed a
fail_closed (error e) = refuse (
    template
      ("requirement store failed — failing closed (" ∷ code_name e.code ∷ "): " ∷ e.message ∷ []))
