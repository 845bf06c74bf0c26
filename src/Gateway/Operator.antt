-- ===== src/Gateway/Operator.antt =====
-- `operatorVerdict`, `forward`, `drop`, `forwardAll` and `dropAll` of
-- packages/integrations/intercept-gateway/src/gateway.ts, and the methods as requests.
pub mod Approved
use liminal_engine.Prelude.{
  String, template, Bool, true, false, Option, none, some, or_else, List, [], ◌∷◌, map, Result, ok,
  err, if◌then◌else◌,
}
use liminal_engine.Prelude.Words.{is_empty, trim}
use liminal_engine.Prelude.Effect.{Effect, lift, return, throw, for_each, ◌>>=◌, ◌>>◌}
use liminal_engine.Contracts.Action.{InterceptedAction}
use liminal_engine.Contracts.PolicyRule.{Verdict, RuleStatus, ActionPolicyRule}
use liminal_engine.Contracts.Correction.{CorrectionEvent, EvalCase}
use liminal_engine.Contracts.Parsing.{parse_action, parse_correction}
use liminal_engine.Policy.Scope.{ProxyScope}
use liminal_engine.Policy.Decision.{PolicyMode, DecisionSource, PolicyDecision, bare_decision}
use liminal_engine.Policy.Queue.{QueuedIntercept, pending}
use liminal_engine.Governance.Correction.Compiler.{
  PolicyRulePreview, CompiledCorrection, compile_correction,
}
use liminal_engine.Gateway.History.{ProxyOutcome}
use liminal_engine.Gateway.MatchReplace.{MatchReplaceRule}
use liminal_engine.Gateway.State.{
  Host, GatewayState, HistoryOptions, on_journal, take_id, take_time, put_in_store, update_in_store,
  take_from_queue, audit_rule, append_verdict, record_history,
}
use liminal_engine.Gateway.Approval.{compile_approval_rule}
use liminal_engine.Gateway.Intercept.{RepeaterInput, intercept, record_action_outcome, repeater}

pub data OperatorVerdict : Type 0 where
  approve disapprove : OperatorVerdict

pub record OperatorVerdictInput : Type 0 where
  pub queue_id : String
  pub verdict : OperatorVerdict
  pub reason : String
  pub activate : Option Bool
  pub edited_action : Option InterceptedAction

pub record OperatorVerdictResult : Type 0 where
  pub decision : PolicyDecision
  pub compiled_rules : List ActionPolicyRule
  pub eval_cases : List EvalCase
  pub preview : List PolicyRulePreview

abbrev pub operator_allows : PolicyDecision
operator_allows = bare_decision Verdict.allow [] [] DecisionSource.operator

abbrev pub operator_denies : String → PolicyDecision
operator_denies reason =
    bare_decision Verdict.deny (reason ∷ [])
      ("Activate the compiled policy rule or correct the action before retrying." ∷ [])
      DecisionSource.operator

abbrev operator_history : String → Option InterceptedAction → String → HistoryOptions
operator_history queue_id original note = record {
  queue_id = some queue_id;
  original_action = original;
  applied_match_replace_rule_ids = none;
  notes = some (note ∷ []);
}

abbrev approval_words : InterceptedAction → String → String
approval_words action reason =
    if is_empty (trim reason)
    then template ("approve " ∷ action.tool ∷ " " ∷ action.action ∷ [])
    else reason

-- `activate === true`
abbrev is_activated : Option Bool → Bool
is_activated none = false
is_activated (some b) = b

-- The inputs of `forward` and `drop`.
abbrev pub to_forward : String → String → Option InterceptedAction → OperatorVerdictInput
to_forward queue_id reason edited_action = record {
  queue_id = queue_id;
  verdict = OperatorVerdict.approve;
  reason = reason;
  activate = none;
  edited_action = edited_action;
}

abbrev pub to_drop : String → String → Option Bool → Option InterceptedAction → OperatorVerdictInput
to_drop queue_id reason activate edited_action = record {
  queue_id = queue_id;
  verdict = OperatorVerdict.disapprove;
  reason = reason;
  activate = activate;
  edited_action = edited_action;
}

abbrev forwarding : Option String → QueuedIntercept → OperatorVerdictInput
forwarding reason item =
    to_forward item.id
      (or_else reason (template ("forward " ∷ item.action.tool ∷ " " ∷ item.action.action ∷ [])))
      none

abbrev dropping : String → Option Bool → QueuedIntercept → OperatorVerdictInput
dropping reason activate item = to_drop item.id reason activate none

module _ (host : Host) where
  unfoldable pub record_correction : String → Effect GatewayState CorrectionEvent
  record_correction words = do
    id ← take_id host
    at ← take_time host
    lift (
        parse_correction host.zod (record {
          id = id;
          case_id = host.who.case_id;
          deal_id = host.who.deal_id;
          correction = words;
          deciding_actor = host.who.deciding_actor;
          corrected_at = at;
        }))

  -- The branch of an approval.
  unfoldable pub approve_action :
      OperatorVerdictInput
      → InterceptedAction
      → Option InterceptedAction
      → Effect GatewayState OperatorVerdictResult
  approve_action input action original = do
    correction ← record_correction (approval_words action input.reason)
    append_verdict host action operator_allows (some correction.id)
    record_history host action operator_allows
        (operator_history input.queue_id original "intercept.forward")
    compiled ← compile_approval_rule host action correction.id correction.correction
    put_in_store host compiled.0
    audit_rule host compiled.0
    return (record {
      decision = operator_allows;
      compiled_rules = compiled.0 ∷ [];
      eval_cases = compiled.1 ∷ [];
      preview = [];
    })

  -- One round of the loop over the compiled rules.
  unfoldable pub store_rule : Bool → ActionPolicyRule → Effect GatewayState ActionPolicyRule
  store_rule false proposed = do
    put_in_store host proposed
    audit_rule host proposed
    return proposed
  store_rule true proposed = do
    put_in_store host proposed
    audit_rule host proposed
    update_in_store host (record proposed { status = RuleStatus.active })
    audit_rule host (record proposed { status = RuleStatus.active })
    return (record proposed { status = RuleStatus.active })

  -- The branch of a denial.
  unfoldable pub deny_action :
      OperatorVerdictInput
      → InterceptedAction
      → Option InterceptedAction
      → Effect GatewayState OperatorVerdictResult
  deny_action input action original = do
    correction ← record_correction input.reason
    append_verdict host action (operator_denies input.reason) (some correction.id)
    record_history host action (operator_denies input.reason)
        (operator_history input.queue_id original "intercept.drop")
    compiled ←
        on_journal (compile_correction host.zod host.casing host.deps correction (some action))
    stored ← for_each (store_rule (is_activated input.activate)) compiled.policy_rules
    return (record {
      decision = operator_denies input.reason;
      compiled_rules = stored;
      eval_cases = compiled.eval_cases;
      preview = compiled.preview;
    })

  abbrev pub by_verdict :
      OperatorVerdictInput
      → InterceptedAction
      → Option InterceptedAction
      → OperatorVerdict
      → Effect GatewayState OperatorVerdictResult
  by_verdict input action original OperatorVerdict.approve = approve_action input action original
  by_verdict input action original OperatorVerdict.disapprove = deny_action input action original

  -- The operator may have edited the action that was queued.
  abbrev pub decide_item :
      OperatorVerdictInput
      → InterceptedAction
      → Option InterceptedAction
      → Effect GatewayState OperatorVerdictResult
  decide_item input queued none = by_verdict input queued none input.verdict
  decide_item input queued (some edited) = do
    action ← lift (parse_action host.zod edited)
    by_verdict input action (some queued) input.verdict

  abbrev pub decide_queued :
      OperatorVerdictInput → Option QueuedIntercept → Effect GatewayState OperatorVerdictResult
  decide_queued input none = throw (template ("no queued intercept " ∷ input.queue_id ∷ []))
  decide_queued input (some item) = decide_item input item.action input.edited_action

  unfoldable pub operator_verdict : OperatorVerdictInput → Effect GatewayState OperatorVerdictResult
  operator_verdict input = do item ← take_from_queue input.queue_id; decide_queued input item

  -- The verdicts on the items that are pending when the loop begins.
  unfoldable pub resolve_all :
      (QueuedIntercept → OperatorVerdictInput) → Effect GatewayState (List OperatorVerdictResult)
  resolve_all verdict_on = do
    items ← λ g. (ok (pending host.locale_compare g.queue), g)
    for_each (λ item. operator_verdict (verdict_on item)) items

  unfoldable pub forward_all : Option String → Effect GatewayState (List OperatorVerdictResult)
  unfolding resolve_all
  forward_all reason = resolve_all (forwarding reason)

  unfoldable pub drop_all : String → Option Bool → Effect GatewayState (List OperatorVerdictResult)
  unfolding resolve_all
  drop_all reason activate = resolve_all (dropping reason activate)

-- The methods that change what the gateway holds.
pub data Request : Type 0 where
  set_mode : PolicyMode → Request
  set_scope : Option ProxyScope → Request
  set_match_replace_rules : List MatchReplaceRule → Request
  intercept_action : InterceptedAction → Request
  report_outcome : ProxyOutcome → Request
  send_again : RepeaterInput → Request
  give_verdict : OperatorVerdictInput → Request
  forward_pending : Option String → Request
  drop_pending : String → Option Bool → Request

-- What a request leaves; its answer, or what it throws, goes to its caller.
unfoldable pub serve : Host → Request → GatewayState → GatewayState
serve host (set_mode mode) g = record g { mode = mode }
serve host (set_scope scope) g = record g { scope = scope }
serve host (set_match_replace_rules rules) g = record g { match_replace_rules = rules }
serve host (intercept_action action) g = (intercept host action g).1
serve host (report_outcome outcome) g = (record_action_outcome host outcome g).1
serve host (send_again input) g = (repeater host input g).1
serve host (give_verdict input) g = (operator_verdict host input g).1
serve host (forward_pending reason) g = (forward_all host reason g).1
serve host (drop_pending reason activate) g = (drop_all host reason activate g).1

unfoldable pub serve_all : Host → List Request → GatewayState → GatewayState
serve_all host [] g = g
serve_all host (request ∷ requests) g = serve_all host requests (serve host request g)
