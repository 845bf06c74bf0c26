-- ===== src/Gateway/Growth.antt =====
-- What every method of packages/integrations/intercept-gateway/src/gateway.ts keeps: a relation between
-- the states before and after, given for the calls on the gateway's parts, holds for the methods.
pub mod Verdicts
pub mod Kept
pub mod Drained
use liminal_engine.Prelude.{
  String, Bool, true, false, Option, none, some, List, [], ◌∷◌, Result, ok, err,
}
use liminal_engine.Prelude.Effect.{
  Effect, lift, return, throw, attempt, Moves, Moves->>=, Moves-for_each, Moves-attempt, Moves-if,
  ◌>>=◌,
}
use liminal_engine.Contracts.Action.{InterceptedAction}
use liminal_engine.Contracts.Audit.{AuditEvent}
use liminal_engine.Contracts.PolicyRule.{Verdict, is_ask, RuleStatus, ActionPolicyRule}
use liminal_engine.Contracts.Correction.{CorrectionEvent}
use liminal_engine.Policy.Scope.{ProxyScope}
use liminal_engine.Policy.Decision.{PolicyMode, PolicyDecision}
use liminal_engine.Policy.Queue.{QueuedIntercept}
use liminal_engine.Governance.Correction.Compiler.{compile_correction}
use liminal_engine.Gateway.History.{ProxyOutcome, ProxyHistoryEntry, entry_by_id}
use liminal_engine.Gateway.MatchReplace.{MatchReplaceRule}
use liminal_engine.Gateway.State.{
  Host, GatewayState, HistoryOptions, PreparedAction, on_journal, take_id, take_time, put_in_store,
  update_in_store, put_in_queue, take_from_queue, put_in_history, settle_in_history, audit_rule,
  audit_event, append_verdict, decide_now, record_history, prepare_action,
}
use liminal_engine.Gateway.Approval.{compile_approval_rule}
use liminal_engine.Gateway.Intercept.{
  RepeaterInput, enqueue_action, hold, conclude, intercept, record_action_outcome, repeater_action,
  repeater,
}

-- The relation stands for each call on a part of the gateway but the queue, however the call ends.
pub record IsKept (host : Host) (R : GatewayState → GatewayState → Type 0) : Type 0 where
  pub stays : (g : GatewayState) → R g g
  pub follows : (f g h : GatewayState) → R f g → R g h → R f h
  pub takes_id : Moves R (take_id host)
  pub takes_time : Moves R (take_time host)
  pub puts_rule : (rule : ActionPolicyRule) → Moves R (put_in_store host rule)
  pub updates_rule : (rule : ActionPolicyRule) → Moves R (update_in_store host rule)
  pub records : (entry : ProxyHistoryEntry) → Moves R (put_in_history entry)
  pub settles : (outcome : ProxyOutcome) → Moves R (settle_in_history outcome)
  pub audits_rule : (rule : ActionPolicyRule) → Moves R (audit_rule host rule)
  pub audits_event : (event : AuditEvent) → Moves R (audit_event host event)
  pub audits_verdict :
      (action : InterceptedAction) (d : PolicyDecision) (from : Option String)
      → Moves R (append_verdict host action d from)
  pub compiles :
      (correction : CorrectionEvent) (action : Option InterceptedAction)
      → Moves R (on_journal (compile_correction host.zod host.casing host.deps correction action))
  pub sets_mode : (mode : PolicyMode) (g : GatewayState) → R g (record g { mode = mode })
  pub sets_scope : (scope : Option ProxyScope) (g : GatewayState) → R g (record g { scope = scope })
  pub sets_rules :
      (rules : List MatchReplaceRule) (g : GatewayState)
      → R g (record g { match_replace_rules = rules })

module _ (host : Host) (R : GatewayState → GatewayState → Type 0) (kept : IsKept host R) where
  pub then_rest :
      {A B : Type 0} (m : Effect GatewayState A) (next : A → Effect GatewayState B)
      → Moves R m
      → ((a : A) → Moves R (next a))
      → Moves R (m >>= next)
  then_rest = Moves->>= R kept.stays kept.follows

  pub of_lift : {A : Type 0} (r : Result A) → Moves R (lift r)
  of_lift r = record { at = λ g. kept.stays g }

  pub record_history-kept :
      (action : InterceptedAction) (d : PolicyDecision) (options : HistoryOptions)
      → Moves R (record_history host action d options)
  unfolding record_history
  record_history-kept action d options = then_rest _ _ kept.takes_id λ id.
      then_rest _ _ (record { at = λ g. kept.stays g })
        λ mode. then_rest _ _ kept.takes_time λ at. kept.records _

  prepare_action-kept :
      (raw : InterceptedAction) (apply : Bool) → Moves R (prepare_action host raw apply)
  unfolding prepare_action
  prepare_action-kept raw apply = record { at = λ g. kept.stays g }

  decide_now-kept :
      (action : InterceptedAction) (mode : Option PolicyMode)
      → Moves R (decide_now host action mode)
  unfolding decide_now
  decide_now-kept action mode = record { at = λ g. kept.stays g }

  conclude-kept :
      (prepared : PreparedAction) (d : PolicyDecision) (held : Result (Option String))
      → Moves R (conclude host prepared d held)
  unfolding conclude
  conclude-kept prepared d (ok queue_id) =
      then_rest _ _ (kept.audits_verdict _ _ _)
        λ _. then_rest _ _ (record_history-kept _ _ _) λ _. of_lift (ok _)
  conclude-kept prepared d (err message) =
      then_rest _ _ (kept.audits_verdict _ _ _)
        λ _. then_rest _ _ (record_history-kept _ _ _) λ _. of_lift (ok _)

  module _ (enqueues : (item : QueuedIntercept) → Moves R (put_in_queue host item)) where
    enqueue_action-kept : (action : InterceptedAction) → Moves R (enqueue_action host action)
    unfolding enqueue_action
    enqueue_action-kept action =
        then_rest _ _ kept.takes_id
          λ id. then_rest _ _ kept.takes_time λ at. then_rest _ _ (enqueues _) λ _. of_lift (ok id)

    hold-kept : (action : InterceptedAction) (d : PolicyDecision) → Moves R (hold host action d)
    unfolding hold
    hold-kept action d =
        Moves-if R (is_ask d.verdict) _ _
          (then_rest _ _ (Moves-attempt R kept.stays kept.follows _ (enqueue_action-kept action))
            λ r. of_lift (ok _))
          (of_lift (ok _))

    pub intercept-kept : (raw : InterceptedAction) → Moves R (intercept host raw)
    unfolding intercept
    intercept-kept raw = then_rest _ _ (of_lift _) λ parsed.
        then_rest _ _ (prepare_action-kept parsed true) λ prepared.
          then_rest _ _ (decide_now-kept _ none)
            λ d. then_rest _ _ (hold-kept _ d) λ held. conclude-kept prepared d held

  pub record_action_outcome-kept :
      (outcome : ProxyOutcome) → Moves R (record_action_outcome host outcome)
  unfolding record_action_outcome
  record_action_outcome-kept outcome = then_rest _ _ (kept.settles outcome) λ _.
      then_rest _ _ kept.takes_id λ id.
        then_rest _ _ kept.takes_time λ at. then_rest _ _ (kept.audits_event _) λ _. of_lift (ok _)

  repeater_action-kept :
      (action : Option InterceptedAction) (id : Option String)
      → Moves R (repeater_action host action id)
  unfolding repeater_action
  repeater_action-kept (some action) id = of_lift _
  repeater_action-kept none (some id) = record { at = λ g. kept.stays g }
  repeater_action-kept none none = record { at = λ g. kept.stays g }

  pub repeater-kept : (input : RepeaterInput) → Moves R (repeater host input)
  unfolding repeater
  repeater-kept input = then_rest _ _ (repeater_action-kept input.action input.history_id) λ raw.
      then_rest _ _ (prepare_action-kept raw _) λ prepared.
        then_rest _ _ (decide_now-kept _ input.mode) λ d.
          then_rest _ _ (kept.audits_verdict _ _ _)
            λ _. then_rest _ _ (record_history-kept _ _ _) λ _. of_lift (ok _)
