-- ===== src/Gateway/State.antt =====
-- packages/integrations/intercept-gateway/src/gateway.ts: what an `InterceptGateway` holds, with the
-- in-memory stores behind its ports, and the calls that its methods make on them.
use liminal_engine.Prelude.{
  String, Bool, true, false, Option, none, some, List, [], ◌∷◌, Ordering, Result, ok, err,
}
use liminal_engine.Prelude.Effect.{Effect, on_part, ◌>>=◌}
use liminal_engine.Contracts.Action.{InterceptedAction}
use liminal_engine.Contracts.Audit.{AuditEvent}
use liminal_engine.Contracts.PolicyRule.{ActionPolicyRule}
use liminal_engine.Contracts.Zod.{Zod}
use liminal_engine.Policy.Scope.{ProxyScope}
use liminal_engine.Policy.Decision.{PolicyMode, PolicyDecision}
use liminal_engine.Policy.Engine.{decide_from_store}
use liminal_engine.Policy.Store.{active_rules, put_rule, update_rule}
use liminal_engine.Policy.Queue.{QueuedIntercept, enqueue, remove}
use liminal_engine.Governance.Correction.Phrases.{Casing}
use liminal_engine.Governance.Journal.{Journal, Deps, next_id, now, append_to_ledger}
use liminal_engine.Governance.PolicyAudit.{
  Deciding, append_policy_verdict_audit, append_policy_rule_audit,
}
use liminal_engine.Gateway.History.{ProxyOutcome, ProxyHistoryEntry, record_entry, record_outcome}
use liminal_engine.Gateway.MatchReplace.{
  MatchReplaceRule, MatchReplaceResult, apply_match_replace_rules,
}

-- What the gateway is built with and never changes.
pub record Host : Type 0 where
  pub zod : Zod
  pub casing : Casing
  pub deps : Deps
  pub locale_compare : String → String → Ordering
  pub who : Deciding

pub record GatewayState : Type 0 where
  pub rules : List ActionPolicyRule
  pub queue : List QueuedIntercept
  pub history : List ProxyHistoryEntry
  pub journal : Journal
  pub mode : PolicyMode
  pub scope : Option ProxyScope
  pub match_replace_rules : List MatchReplaceRule

abbrev pub on_journal : {A : Type 0} → Effect Journal A → Effect GatewayState A
on_journal m = on_part (λ g. g.journal) (λ j g. record g { journal = j }) m

abbrev pub set_rules : List ActionPolicyRule → GatewayState → GatewayState
set_rules rules g = record g { rules = rules }

abbrev pub set_queue : List QueuedIntercept → GatewayState → GatewayState
set_queue queue g = record g { queue = queue }

abbrev pub set_history : List ProxyHistoryEntry → GatewayState → GatewayState
set_history history g = record g { history = history }

-- A store's answer: what it throws leaves it as it was.
abbrev pub stored :
    {S : Type 0}
    → (S → GatewayState → GatewayState)
    → GatewayState
    → Result S
    → Result (Unit {0}) × GatewayState
stored put g (ok s) = (ok tt, put s g)
stored put g (err message) = (err message, g)

unfoldable pub take_from_queue : String → Effect GatewayState (Option QueuedIntercept)
take_from_queue id g = (ok (remove id g.queue).0, set_queue (remove id g.queue).1 g)

unfoldable pub put_in_history : ProxyHistoryEntry → Effect GatewayState (Unit {0})
put_in_history entry g = stored set_history g (record_entry entry g.history)

unfoldable pub settle_in_history : ProxyOutcome → Effect GatewayState (Unit {0})
settle_in_history outcome g = stored set_history g (record_outcome outcome g.history)

module _ (host : Host) where
  unfoldable pub take_id : Effect GatewayState String
  take_id = on_journal (next_id host.deps)

  unfoldable pub take_time : Effect GatewayState String
  take_time = on_journal (now host.deps)

  unfoldable pub put_in_store : ActionPolicyRule → Effect GatewayState (Unit {0})
  put_in_store rule g = stored set_rules g (put_rule host.zod rule g.rules)

  unfoldable pub update_in_store : ActionPolicyRule → Effect GatewayState (Unit {0})
  update_in_store rule g = stored set_rules g (update_rule host.zod rule g.rules)

  unfoldable pub put_in_queue : QueuedIntercept → Effect GatewayState (Unit {0})
  put_in_queue item g = stored set_queue g (enqueue host.zod item g.queue)

  -- `appendPolicyRuleAudit` with the gateway's ledger.
  unfoldable pub audit_rule : ActionPolicyRule → Effect GatewayState (Unit {0})
  audit_rule rule = do
    sealed ← on_journal (append_policy_rule_audit host.zod host.deps host.who rule)
    λ g. (ok tt, g)

  -- `ledger.append(event)`
  unfoldable pub audit_event : AuditEvent → Effect GatewayState (Unit {0})
  audit_event event = do sealed ← on_journal (append_to_ledger host.zod event); λ g. (ok tt, g)

  -- `appendVerdict`
  unfoldable pub append_verdict :
      InterceptedAction → PolicyDecision → Option String → Effect GatewayState (Unit {0})
  append_verdict action decision from_correction_id = do
    sealed ←
        on_journal (
          append_policy_verdict_audit host.zod host.deps host.who action decision
            from_correction_id)
    λ g. (ok tt, g)

  -- `decide`
  unfoldable pub decide_now :
      InterceptedAction → Option PolicyMode → Effect GatewayState PolicyDecision
  decide_now action mode g = (
    ok (
        decide_from_store host.zod host.locale_compare action
          (ok (active_rules host.locale_compare g.rules))
          (record { mode = mode_or g.mode mode; scope = g.scope })),
    g,
  )
    where
      mode_or : PolicyMode → Option PolicyMode → PolicyMode
      mode_or own none = own
      mode_or own (some other) = other

-- What `recordHistory` is told beside the action and the decision.
pub record HistoryOptions : Type 0 where
  pub queue_id : Option String
  pub original_action : Option InterceptedAction
  pub applied_match_replace_rule_ids : Option (List String)
  pub notes : Option (List String)

abbrev unless_empty : Option (List String) → Option (List String)
unless_empty none = none
unless_empty (some []) = none
unless_empty (some (id ∷ ids)) = some (id ∷ ids)

abbrev history_entry :
    InterceptedAction
    → PolicyDecision
    → HistoryOptions
    → PolicyMode
    → String
    → String
    → ProxyHistoryEntry
history_entry action decision options mode id at = record {
  id = id;
  original_action = options.original_action;
  action = action;
  decision = decision;
  mode = mode;
  recorded_at = at;
  queue_id = options.queue_id;
  applied_match_replace_rule_ids = unless_empty options.applied_match_replace_rule_ids;
  notes = options.notes;
  outcome = none;
}

module _ (host : Host) where
  -- `recordHistory`
  unfoldable pub record_history :
      InterceptedAction → PolicyDecision → HistoryOptions → Effect GatewayState (Unit {0})
  record_history action decision options = do
    id ← take_id host
    mode ← λ g. (ok g.mode, g)
    at ← take_time host
    put_in_history (history_entry action decision options mode id at)

pub record PreparedAction : Type 0 where
  pub action : InterceptedAction
  pub original_action : Option InterceptedAction
  pub applied_match_replace_rule_ids : Option (List String)

abbrev untouched : InterceptedAction → PreparedAction
untouched action = record {
  action = action;
  original_action = none;
  applied_match_replace_rule_ids = none;
}

abbrev rewritten : InterceptedAction → MatchReplaceResult → List String → PreparedAction
rewritten raw r [] = untouched r.action
rewritten raw r (id ∷ ids) = record {
  action = r.action;
  original_action = some raw;
  applied_match_replace_rule_ids = some (id ∷ ids);
}

abbrev prepared_by : InterceptedAction → Result MatchReplaceResult → Result PreparedAction
prepared_by raw (ok r) = ok (rewritten raw r r.applied_rule_ids)
prepared_by raw (err message) = err message

abbrev pub prepare_with :
    Zod → InterceptedAction → Bool → List MatchReplaceRule → Result PreparedAction
prepare_with zod raw apply [] = ok (untouched raw)
prepare_with zod raw false (rule ∷ rules) = ok (untouched raw)
prepare_with zod raw true (rule ∷ rules) =
    prepared_by raw (apply_match_replace_rules zod raw (rule ∷ rules))

-- `prepareAction`
unfoldable pub prepare_action : Host → InterceptedAction → Bool → Effect GatewayState PreparedAction
prepare_action host raw apply g = (prepare_with host.zod raw apply g.match_replace_rules, g)
