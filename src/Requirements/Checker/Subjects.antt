-- ===== src/Requirements/Checker/Subjects.antt =====
-- The subject adapters of packages/governance/src/active-requirement-checker.ts.
use liminal_engine.Prelude.{
  String, template, ◌==◌, Bool, true, false, ◌||◌, Option, none, some, or_else, List, [], ◌∷◌, ◌++◌,
  if◌then◌else◌,
}
use liminal_engine.Prelude.Words.{is_empty, trim, contains}
use liminal_engine.Contracts.Value.{Value, Items, get}
use liminal_engine.Contracts.Action.{InterceptedAction}
use liminal_engine.Contracts.Audit.{DealStatus}
use liminal_engine.Contracts.AgentOutput.{AgentMetadata, AgentOutput}
use liminal_engine.Contracts.Requirement.{Requirement}
use liminal_engine.Requirements.Checker.Tokens.{join}
use liminal_engine.Requirements.Checker.{
  CheckSubjectKind, Surfaces, CheckSubject, RequirementCheckReport, check_requirements,
}

abbrev artifacts_of : Option AgentMetadata → List String
artifacts_of none = []
artifacts_of (some metadata) = metadata.artifacts

abbrev is_on_track : DealStatus → Bool
is_on_track DealStatus.on_track = true
is_on_track DealStatus.at_risk = false

unfoldable pub agent_output_to_subject : AgentOutput → CheckSubject
agent_output_to_subject output = record {
  id = output.id;
  kind = CheckSubjectKind.agent_output;
  deal_id = some output.deal_id;
  surfaces = Surfaces.everything;
  claims_on_track = is_on_track output.reported_status;
  dropped_requirements = output.dropped_requirements;
  violated_requirements = [];
  asserted_owner_roles = [];
  text = join (output.summary ∷ artifacts_of output.agent_metadata);
  at = none;
}

-- `SURFACE_BY_ACTION[action]`, for an action that is not named like a member of `Object.prototype`.
abbrev surface_by_action : String → List String
surface_by_action action =
    if action == "customer-update"
      || action == "status-update"
      || action == "send-update"
      || action == "send-status"
      || action == "on-track-update"
    then "customer-facing-status-update" ∷ []
    else if action == "deal-proposal"
    then "deal-proposal" ∷ []
    else if action == "launch-plan"
    then "launch-plan" ∷ []
    else []

abbrev strings_of : Items → List String
strings_of Items.nil = []
strings_of (Items.cons (Value.string s) items) = s ∷ strings_of items
strings_of (Items.cons _ items) = strings_of items

abbrev as_string_array : Value → List String
as_string_array (Value.array items) = strings_of items
as_string_array (Value.string s) = if is_empty s then [] else s ∷ []
as_string_array _ = []

abbrev optional_item : Option String → List String
optional_item none = []
optional_item (some s) = s ∷ []

abbrev says_on_track : Value → Bool
says_on_track (Value.string s) = s == "on-track"
says_on_track _ = false

-- `/on[-_ ]?track/`
abbrev names_on_track : String → Bool
names_on_track s =
    contains s "ontrack" || contains s "on-track" || contains s "on_track" || contains s "on track"

unfoldable pub intercepted_action_to_subject : (String → String) → InterceptedAction → CheckSubject
intercepted_action_to_subject lower action = record {
  id = action.id;
  kind = CheckSubjectKind.intercepted_action;
  deal_id = action.goal_id;
  surfaces =
      Surfaces.listed
        (surface_by_action action.action ++ action.action ∷ optional_item action.target);
  claims_on_track =
      says_on_track (get "status" action.args)
      || names_on_track (lower (template (action.action ∷ " " ∷ or_else action.target "" ∷ [])));
  dropped_requirements =
      as_string_array (get "drops" action.args)
      ++ as_string_array (get "droppedRequirements" action.args);
  violated_requirements =
      as_string_array (get "overrides" action.args)
      ++ as_string_array (get "violates" action.args)
      ++ as_string_array (get "overrideRequirements" action.args);
  asserted_owner_roles = as_string_array (get "owners" action.args);
  text = trim (
      join (
        action.tool
        ∷ action.action
        ∷ or_else action.target ""
        ∷ join (as_string_array (get "summary" action.args))
        ∷ []));
  at = some action.requested_at;
}

module _ (lower : String → String) where
  unfoldable pub check_agent_output : List Requirement → AgentOutput → RequirementCheckReport
  check_agent_output requirements output =
      check_requirements lower requirements (agent_output_to_subject output)

  unfoldable pub check_intercepted_action :
      List Requirement → InterceptedAction → RequirementCheckReport
  check_intercepted_action requirements action =
      check_requirements lower requirements (intercepted_action_to_subject lower action)
