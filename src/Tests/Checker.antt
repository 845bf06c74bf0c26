-- ===== src/Tests/Checker.antt =====
-- The requirement checker on the Acme fixtures, in lower case.
use liminal_engine.Prelude.{
  String, ◌≡◌, ◌↔◌, refl, true, false, none, some, List, [], ◌∷◌, ◌++◌, map, filter, All, inl, inr,
}
use mathlib.Core.List.{Perm}
use liminal_engine.Contracts.Audit.{DealStatus}
use liminal_engine.Contracts.AgentOutput.{AgentOutput}
use liminal_engine.Contracts.Requirement.{
  RequirementSeverity, RequirementStatus, RequirementCreatedBy, Requirement,
}
use liminal_engine.Requirements.Checker.{
  CheckSubject, check_requirements, is_graded, requirement_in_scope, phrase_references_requirement,
}
use liminal_engine.Requirements.Checker.Tokens.{tokenize, tokens_match}
use liminal_engine.Requirements.Checker.Subjects.{agent_output_to_subject}
use liminal_engine.Requirements.Checker.Verdicts.{Clears, passed_iff, referenced-fails}
use liminal_engine.Requirements.Checker.Accounted.{check_requirements-accounts}

abbrev lower : String → String
lower s = s

abbrev residency : Requirement
residency = record {
  id = "req_eu";
  goal_id = "goal_acme";
  deal_id = "deal_acme";
  text = "customer data must remain within the eu region";
  owner_role = "security";
  severity = RequirementSeverity.hard;
  scope = "data-residency" ∷ [];
  status = RequirementStatus.active;
  created_by = RequirementCreatedBy.operator;
  approved_by = some "VP Ops";
  evidence_refs = [];
  created_at = "2026-06-27T09:00:00.000Z";
  activated_at = some "2026-06-27T09:30:00.000Z";
}

abbrev declared : List Requirement
declared = residency ∷ record residency { id = "req_old"; status = RequirementStatus.retired } ∷ []

abbrev false_green : AgentOutput
false_green = record {
  id = "ao_acme_p1";
  deal_id = "deal_acme";
  deal_name = "acme expansion";
  pass_number = 1;
  reported_status = DealStatus.on_track;
  summary = "acme expansion on track; all workstreams green.";
  dropped_requirements = "eu data residency" ∷ [];
  agent_metadata = none;
}

abbrev subject : CheckSubject
unfolding agent_output_to_subject
subject = agent_output_to_subject false_green

passed_iff_example :
    ((check_requirements lower declared subject).passed ≡ true)
    ↔ All (Clears lower subject) declared
passed_iff_example = passed_iff lower subject declared

referenced-fails_example : (check_requirements lower declared subject).passed ≡ false
unfolding requirement_in_scope phrase_references_requirement tokenize tokens_match
    agent_output_to_subject
referenced-fails_example =
    referenced-fails lower subject declared residency "eu data residency" (inl refl) refl refl
      (inr (inl refl)) refl

check_requirements-accounts_example :
    let report = check_requirements lower declared subject in
    Perm
      (report.checked_requirement_ids ++ report.skipped_requirement_ids)
      (map (λ r. r.id) declared)
    × (report.checked_requirement_ids ≡ map (λ r. r.id) (filter (is_graded lower subject) declared))
    × (report.checked_requirement_ids ≡ map (λ f. f.requirement_id) report.findings)
check_requirements-accounts_example = check_requirements-accounts lower subject declared
