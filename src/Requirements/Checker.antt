-- ===== src/Requirements/Checker.antt =====
-- packages/governance/src/active-requirement-checker.ts: grading a subject against the requirements.
-- `toLowerCase` is a parameter.
pub mod Tokens
pub mod Subjects
pub mod Verdicts
pub mod Accounted
use liminal_engine.Prelude.{
  ℕ, ◌*◌, leb, String, template, ◌==◌, Bool, true, false, not, ◌&&◌, ◌||◌, Option, none, some,
  or_else, List, [], ◌∷◌, map, filter, find, any, all, length, distinct, if◌then◌else◌,
}
use liminal_engine.Prelude.Words.{trim}
use liminal_engine.Contracts.Requirement.{RequirementSeverity, Requirement}
use liminal_engine.Contracts.Parsing.{is_requirement_active}
use liminal_engine.Requirements.Checker.Tokens.{tokenize, tokens_match, join}

pub data RequirementFindingStatus : Type 0 where
  satisfied missing contradicted unsupported_on_track_claim missing_owner_or_workstream :
      RequirementFindingStatus

pub data CheckSubjectKind : Type 0 where
  agent_output intercepted_action : CheckSubjectKind

-- `"*"`, or the surfaces by name.
pub data Surfaces : Type 0 where
  everything : Surfaces
  listed : List String → Surfaces

pub record CheckSubject : Type 0 where
  pub id : String
  pub kind : CheckSubjectKind
  pub deal_id : Option String
  pub surfaces : Surfaces
  pub claims_on_track : Bool
  pub dropped_requirements : List String
  pub violated_requirements : List String
  pub asserted_owner_roles : List String
  pub text : String
  pub at : Option String

pub record RequirementFinding : Type 0 where
  pub requirement_id : String
  pub status : RequirementFindingStatus
  pub severity : RequirementSeverity
  pub hard_fail : Bool
  pub case_opening : Bool
  pub owner_role : String
  pub scope : List String
  pub matched_phrase : Option String
  pub detail : String

pub record RequirementCheckReport : Type 0 where
  pub subject_id : String
  pub subject_kind : CheckSubjectKind
  pub deal_id : Option String
  pub at : Option String
  pub findings : List RequirementFinding
  pub case_opening_findings : List RequirementFinding
  pub passed : Bool
  pub checked_requirement_ids : List String
  pub skipped_requirement_ids : List String

pub record Classification : Type 0 where
  pub status : RequirementFindingStatus
  pub matched_phrase : Option String

abbrev owner_surface_tokens : List String
owner_surface_tokens = "owner" ∷ "owners" ∷ "ownership" ∷ "workstream" ∷ "workstreams" ∷ []

-- Each of the first tokens matches one of the second.
abbrev covers : List String → List String → Bool
covers tokens others = all (λ t. any (λ o. tokens_match t o) others) tokens

abbrev is_nil : List String → Bool
is_nil [] = true
is_nil (x ∷ xs) = false

abbrev pub is_hard : RequirementSeverity → Bool
is_hard RequirementSeverity.hard = true
is_hard _ = false

abbrev pub is_satisfied : RequirementFindingStatus → Bool
is_satisfied satisfied = true
is_satisfied _ = false

abbrev pub unaddressed : Bool → RequirementFindingStatus
unaddressed true = unsupported_on_track_claim
unaddressed false = missing

abbrev detail_for : Requirement → RequirementFindingStatus → Option String → String
detail_for r satisfied phrase =
    template
      ("requirement " ∷ r.id ∷ " is satisfied: the subject addresses \"" ∷ r.text ∷ "\"." ∷ [])
detail_for r missing (some phrase) =
    template ("requirement " ∷ r.id ∷ " is missing: the subject dropped \"" ∷ phrase ∷ "\"." ∷ [])
detail_for r missing none =
    template
      ("requirement " ∷ r.id ∷ " is missing: the subject does not address \"" ∷ r.text ∷ "\"." ∷ [])
detail_for r contradicted phrase = template (
    "requirement "
    ∷ r.id
    ∷ " is contradicted: the subject overrides \""
    ∷ or_else phrase r.text
    ∷ "\"."
    ∷ [])
detail_for r unsupported_on_track_claim (some phrase) = template (
    "requirement " ∷ r.id ∷ ": on-track claim is unsupported — required \"" ∷ phrase
    ∷ "\" was dropped." ∷ [])
detail_for r unsupported_on_track_claim none = template (
    "requirement " ∷ r.id ∷ ": on-track claim is unsupported — the subject is silent on \"" ∷ r.text
    ∷ "\"." ∷ [])
detail_for r missing_owner_or_workstream phrase = template (
    "requirement " ∷ r.id ∷ ": the " ∷ r.owner_role ∷ " owner / workstream for \"" ∷ r.text
    ∷ "\" is not evidenced." ∷ [])

unfoldable pub finding : Requirement → Classification → RequirementFinding
finding r c =
    let hard_fail = is_hard r.severity && not (is_satisfied c.status) in
    record {
      requirement_id = r.id;
      status = c.status;
      severity = r.severity;
      hard_fail = hard_fail;
      case_opening = hard_fail;
      owner_role = r.owner_role;
      scope = r.scope;
      matched_phrase = c.matched_phrase;
      detail = detail_for r c.status c.matched_phrase;
    }

abbrev pub none_of : List RequirementFinding → Bool
none_of [] = true
none_of (f ∷ fs) = false

module _ (lower : String → String) where
  abbrev requirement_tokens : Requirement → List String
  requirement_tokens r =
      tokenize lower (template (r.text ∷ " " ∷ join r.scope ∷ " " ∷ r.owner_role ∷ []))

  unfoldable pub phrase_references_requirement : String → Requirement → Bool
  phrase_references_requirement phrase r =
      let tokens = tokenize lower phrase in
      not (is_nil tokens) && covers tokens (requirement_tokens r)

  -- At least 60 % of the statement's tokens appear in the text.
  unfoldable pub text_addresses_requirement : String → Requirement → Bool
  text_addresses_requirement text r =
      let text_tokens = tokenize lower text in
      let statement_tokens = distinct (tokenize lower r.text) in
      let present = filter (λ s. any (λ t. tokens_match t s) text_tokens) statement_tokens in
      not (is_nil text_tokens)
      && not (is_nil statement_tokens)
      && leb (3 * length statement_tokens) (5 * length present)

  unfoldable pub requirement_requires_owner : Requirement → Bool
  requirement_requires_owner r =
      any (λ s. any (λ o. tokens_match s o) owner_surface_tokens) (tokenize lower (join r.scope))

  unfoldable pub owner_evidenced : Requirement → CheckSubject → Bool
  owner_evidenced r subject =
      any (λ asserted. lower (trim asserted) == lower (trim r.owner_role))
        subject.asserted_owner_roles
      || (not (is_nil (tokenize lower r.owner_role))
          && all (λ own. any (λ t. tokens_match t own) (tokenize lower subject.text))
              (tokenize lower r.owner_role))

  abbrev touches : List String → List String → Bool
  touches scope surfaces =
      any
        (λ name.
          any
            (λ surface.
              any (λ s. any (λ t. tokens_match s t) (tokenize lower surface)) (tokenize lower name))
            surfaces)
        scope

  unfoldable pub requirement_in_scope : Requirement → Surfaces → Bool
  requirement_in_scope r everything = true
  requirement_in_scope r (listed surfaces) = touches r.scope surfaces

  -- The classification without a violated or a dropped phrase.
  abbrev classify_silent : Requirement → CheckSubject → RequirementFindingStatus
  classify_silent r subject =
      if requirement_requires_owner r && not (owner_evidenced r subject)
      then missing_owner_or_workstream
      else if text_addresses_requirement subject.text r
      then satisfied
      else unaddressed subject.claims_on_track

  abbrev by_phrases :
      CheckSubject → Option String → Option String → RequirementFindingStatus → Classification
  by_phrases subject (some violation) dropped silent = record {
    status = contradicted;
    matched_phrase = some violation;
  }
  by_phrases subject none (some dropped) silent = record {
    status = unaddressed subject.claims_on_track;
    matched_phrase = some dropped;
  }
  by_phrases subject none none silent = record { status = silent; matched_phrase = none }

  unfoldable pub classify : Requirement → CheckSubject → Classification
  classify r subject =
      by_phrases subject
        (find (λ p. phrase_references_requirement p r) subject.violated_requirements)
        (find (λ p. phrase_references_requirement p r) subject.dropped_requirements)
        (classify_silent r subject)

  abbrev pub is_graded : CheckSubject → Requirement → Bool
  is_graded subject r = is_requirement_active r.status && requirement_in_scope r subject.surfaces

  -- The loop: the findings, the checked ids and the skipped ids.
  unfoldable pub grade :
      CheckSubject → List Requirement → List RequirementFinding × List String × List String
  grade subject [] = ([], [], [])
  grade subject (r ∷ requirements) =
      let (findings, checked, skipped) = grade subject requirements in
      if not (is_requirement_active r.status) || not (requirement_in_scope r subject.surfaces)
      then (findings, checked, r.id ∷ skipped)
      else (finding r (classify r subject) ∷ findings, r.id ∷ checked, skipped)

  unfoldable pub check_requirements : List Requirement → CheckSubject → RequirementCheckReport
  check_requirements requirements subject =
      let (findings, checked, skipped) = grade subject requirements in
      let opening = filter (λ f. f.case_opening) findings in
      record {
        subject_id = subject.id;
        subject_kind = subject.kind;
        deal_id = subject.deal_id;
        at = subject.at;
        findings = findings;
        case_opening_findings = opening;
        passed = none_of opening;
        checked_requirement_ids = checked;
        skipped_requirement_ids = skipped;
      }
