-- ===== src/Gateway/Intercept.antt =====
-- `intercept`, `repeater` and `recordOutcome` of
-- packages/integrations/intercept-gateway/src/gateway.ts.
pub mod Outcome
pub mod Allowed
use liminal_engine.Prelude.{
  ◌+◌, String, template, Bool, true, false, Option, none, some, List, [], ◌∷◌, Result, ok, err,
  if◌then◌else◌,
}
use liminal_engine.Prelude.Int.{ℤ}
use liminal_engine.Prelude.Effect.{Effect, lift, return, throw, attempt, ◌>>=◌, ◌>>◌}
use liminal_engine.Contracts.Value.{Value, Fields}
use liminal_engine.Contracts.Action.{InterceptedAction}
use liminal_engine.Contracts.Audit.{DealStatus, AuditEvent}
use liminal_engine.Contracts.PolicyRule.{Verdict, is_ask}
use liminal_engine.Contracts.Parsing.{parse_action}
use liminal_engine.Policy.Decision.{PolicyMode, DecisionSource, PolicyDecision, bare_decision}
use liminal_engine.Policy.Engine.{error_detail}
use liminal_engine.Policy.Queue.{QueuedIntercept}
use liminal_engine.Governance.PolicyAudit.{Deciding}
use liminal_engine.Gateway.History.{ProxyOutcome, ProxyHistoryEntry, entry_by_id}
use liminal_engine.Gateway.State.{
  Host, GatewayState, HistoryOptions, PreparedAction, take_id, take_time, put_in_queue,
  settle_in_history, audit_event, append_verdict, decide_now, record_history, prepare_action,
}
use Prim.Native.String

abbrev pub queue_failed : String → PolicyDecision
queue_failed message =
    bare_decision Verdict.deny
      (template ("Intercept queue failed closed" ∷ error_detail message ∷ "." ∷ []) ∷ [])
      ("Restore the intercept queue before running consequential actions." ∷ [])
      DecisionSource.default_deny

abbrev history_options : Option String → PreparedAction → Option (List String) → HistoryOptions
history_options queue_id prepared notes = record {
  queue_id = queue_id;
  original_action = prepared.original_action;
  applied_match_replace_rule_ids = prepared.applied_match_replace_rule_ids;
  notes = notes;
}

-- `exitCode`, `actionId` and `completedAt` as a value.
abbrev outcome_value : ProxyOutcome → Value
outcome_value o = Value.object (
    Fields.field "actionId" (Value.string o.action_id) (
      Fields.field "exitCode" (Value.number o.exit_code)
        (Fields.field "completedAt" (Value.string o.completed_at) Fields.empty)))

abbrev outcome_event : Deciding → ProxyOutcome → String → String → AuditEvent
outcome_event who outcome id at = record {
  id = id;
  case_id = who.case_id;
  deal_id = who.deal_id;
  action = "policy.outcome";
  deciding_actor = who.deciding_actor;
  previous_status = DealStatus.at_risk;
  new_status = DealStatus.at_risk;
  recorded_at = at;
  before_state = none;
  after_state = some (Fields.field "actionOutcome" (outcome_value outcome) Fields.empty);
  evidence_ids = some (outcome.action_id ∷ []);
  action_ids = none;
  eval_ids = none;
  affected_systems = none;
  prev_hash = none;
}

pub record RepeaterInput : Type 0 where
  pub action : Option InterceptedAction
  pub history_id : Option String
  pub mode : Option PolicyMode
  pub apply_match_replace : Option Bool

pub record RepeaterResult : Type 0 where
  pub action : InterceptedAction
  pub decision : PolicyDecision

-- `value !== false`
abbrev unless_false : Option Bool → Bool
unless_false none = true
unless_false (some b) = b

module _ (host : Host) where
  -- The body of the `try` block.
  unfoldable pub enqueue_action : InterceptedAction → Effect GatewayState String
  enqueue_action action = do
    id ← take_id host
    at ← take_time host
    put_in_queue host (record { id = id; action = action; enqueued_at = at })
    return id

  abbrev held_id : Result String → Result (Option String)
  held_id (ok id) = ok (some id)
  held_id (err message) = err message

  -- An action that is asked about is queued; what queueing throws is caught.
  unfoldable pub hold :
      InterceptedAction → PolicyDecision → Effect GatewayState (Result (Option String))
  hold action decision =
      if is_ask decision.verdict
      then (do queued ← attempt (enqueue_action action); return (held_id queued))
      else return (ok none)

  -- The verdict is audited, then recorded in the history.
  unfoldable pub conclude :
      PreparedAction → PolicyDecision → Result (Option String) → Effect GatewayState PolicyDecision
  conclude prepared decision (ok queue_id) = do
    append_verdict host prepared.action decision none
    record_history host prepared.action decision (history_options queue_id prepared none)
    return decision
  conclude prepared decision (err message) = do
    append_verdict host prepared.action (queue_failed message) none
    record_history host prepared.action (queue_failed message) (history_options none prepared none)
    return (queue_failed message)

  unfoldable pub intercept : InterceptedAction → Effect GatewayState PolicyDecision
  intercept raw_action = do
    raw ← lift (parse_action host.zod raw_action)
    prepared ← prepare_action host raw true
    decision ← decide_now host prepared.action none
    held ← hold prepared.action decision
    conclude prepared decision held

  unfoldable pub record_action_outcome : ProxyOutcome → Effect GatewayState ProxyOutcome
  record_action_outcome outcome = do
    settle_in_history outcome
    id ← take_id host
    at ← take_time host
    audit_event host (outcome_event host.who outcome id at)
    return outcome

  abbrev found_action : String → Option ProxyHistoryEntry → Result InterceptedAction
  found_action id none = err (template ("no proxy history entry " ∷ id ∷ []))
  found_action id (some entry) = ok entry.action

  -- `repeaterAction`
  unfoldable pub repeater_action :
      Option InterceptedAction → Option String → Effect GatewayState InterceptedAction
  repeater_action (some action) history_id = lift (parse_action host.zod action)
  repeater_action none (some id) = λ g. (found_action id (entry_by_id id g.history), g)
  repeater_action none none = throw "repeater requires either action or historyId"

  unfoldable pub repeater : RepeaterInput → Effect GatewayState RepeaterResult
  repeater input = do
    raw ← repeater_action input.action input.history_id
    prepared ← prepare_action host raw (unless_false input.apply_match_replace)
    decision ← decide_now host prepared.action input.mode
    append_verdict host prepared.action decision none
    record_history host prepared.action decision
        (history_options none prepared (some ("repeater.send" ∷ [])))
    return (record { action = prepared.action; decision = decision })
