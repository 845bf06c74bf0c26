-- ===== src/Contracts/Canonical/Obligation.antt =====
-- A reader of the canonical projection of packages/contracts/src/requirement.contract.ts.
use liminal_engine.Prelude.{String, ◌==◌, if◌then◌else◌, ◌≡◌, refl, Option, none, some}
use liminal_engine.Contracts.Value.{Value, Fields, get}
use liminal_engine.Contracts.Audit.{optional_field}
use liminal_engine.Contracts.Requirement.{
  RequirementSeverity, RequirementStatus, RequirementCreatedBy, Requirement,
}
use liminal_engine.Contracts.Canonical.{
  severity_text, requirement_status_text, created_by_text, requirement_canonical,
}
use liminal_engine.Contracts.Canonical.Reading.{text_of, option_of, strings_of, strings_of-strings}

abbrev severity_of : String → RequirementSeverity
severity_of s =
    if s == "hard"
    then RequirementSeverity.hard
    else if s == "soft"
    then RequirementSeverity.soft
    else RequirementSeverity.info

abbrev status_of_text : String → RequirementStatus
status_of_text s =
    if s == "proposed"
    then RequirementStatus.proposed
    else if s == "active"
    then RequirementStatus.active
    else if s == "rejected"
    then RequirementStatus.rejected
    else RequirementStatus.retired

abbrev creator_of : String → RequirementCreatedBy
creator_of s =
    if s == "operator"
    then RequirementCreatedBy.operator
    else if s == "import"
    then RequirementCreatedBy.bulk_import
    else RequirementCreatedBy.proposal

-- A reader of the projection.
unfoldable pub requirement_of : Fields → Requirement
requirement_of fs = record {
  id = text_of (get "id" fs);
  goal_id = text_of (get "goal_id" fs);
  deal_id = text_of (get "deal_id" fs);
  text = text_of (get "text" fs);
  owner_role = text_of (get "owner_role" fs);
  severity = severity_of (text_of (get "severity" fs));
  scope = strings_of (get "scope" fs);
  status = status_of_text (text_of (get "status" fs));
  created_by = creator_of (text_of (get "created_by" fs));
  approved_by = option_of (get "approved_by" fs);
  evidence_refs = strings_of (get "evidence_refs" fs);
  created_at = text_of (get "created_at" fs);
  activated_at = option_of (get "activated_at" fs);
}

severity_of-text : (s : RequirementSeverity) → severity_of (severity_text s) ≡ s
severity_of-text RequirementSeverity.hard = refl
severity_of-text RequirementSeverity.soft = refl
severity_of-text RequirementSeverity.info = refl

status_of_text-text : (s : RequirementStatus) → status_of_text (requirement_status_text s) ≡ s
status_of_text-text RequirementStatus.proposed = refl
status_of_text-text RequirementStatus.active = refl
status_of_text-text RequirementStatus.rejected = refl
status_of_text-text RequirementStatus.retired = refl

creator_of-text : (c : RequirementCreatedBy) → creator_of (created_by_text c) ≡ c
creator_of-text RequirementCreatedBy.operator = refl
creator_of-text RequirementCreatedBy.bulk_import = refl
creator_of-text RequirementCreatedBy.proposal = refl

abbrev tail : Option String → Option String → Fields
tail a t =
    optional_field "approved_by" Value.string a
      (optional_field "activated_at" Value.string t Fields.empty)

tail-approved_by : (a t : Option String) → option_of (get "approved_by" (tail a t)) ≡ a
tail-approved_by none none = refl
tail-approved_by none (some t) = refl
tail-approved_by (some a) t = refl

tail-activated_at : (a t : Option String) → option_of (get "activated_at" (tail a t)) ≡ t
tail-activated_at none none = refl
tail-activated_at none (some t) = refl
tail-activated_at (some a) none = refl
tail-activated_at (some a) (some t) = refl

-- A requirement can be read back from its canonical projection, so two requirements with one
-- projection are one: nothing of a requirement is left out of what is hashed.
pub requirement_of-requirement_canonical :
    (r : Requirement) → requirement_of (requirement_canonical r) ≡ r
unfolding requirement_of requirement_canonical
requirement_of-requirement_canonical r =
    rw
      (
        severity_of-text r.severity,
        status_of_text-text r.status,
        creator_of-text r.created_by,
        strings_of-strings r.scope,
        strings_of-strings r.evidence_refs,
        tail-approved_by r.approved_by r.activated_at,
        tail-activated_at r.approved_by r.activated_at,
      )
      refl
