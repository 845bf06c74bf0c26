-- ===== src/Gateway/Growth/Verdicts.antt =====
-- The operator's methods of packages/integrations/intercept-gateway/src/gateway.ts, and sequences of
-- requests, keep what the calls on the gateway's parts keep.
use liminal_engine.Prelude.{String, Bool, true, false, Option, none, some, List, [], ◌∷◌, ok}
use liminal_engine.Prelude.Effect.{Effect, Moves, Moves-for_each, ◌>>=◌}
use liminal_engine.Contracts.Action.{InterceptedAction}
use liminal_engine.Contracts.PolicyRule.{ActionPolicyRule}
use liminal_engine.Policy.Queue.{QueuedIntercept}
use liminal_engine.Gateway.State.{Host, GatewayState, put_in_queue, take_from_queue}
use liminal_engine.Gateway.Approval.{compile_approval_rule}
use liminal_engine.Gateway.Operator.{
  OperatorVerdict, OperatorVerdictInput, record_correction, approve_action, store_rule, deny_action,
  by_verdict, decide_item, decide_queued, operator_verdict, resolve_all, forward_all, drop_all,
  Request, serve, serve_all,
}
use liminal_engine.Gateway.Growth.{
  IsKept, then_rest, of_lift, record_history-kept, intercept-kept, record_action_outcome-kept,
  repeater-kept,
}

module _ (host : Host) (R : GatewayState → GatewayState → Type 0) (kept : IsKept host R) where
  rest :
      {A B : Type 0} (m : Effect GatewayState A) (next : A → Effect GatewayState B)
      → Moves R m
      → ((a : A) → Moves R (next a))
      → Moves R (m >>= next)
  rest = then_rest host R kept

  record_correction-kept : (words : String) → Moves R (record_correction host words)
  unfolding record_correction
  record_correction-kept words =
      rest _ _ kept.takes_id λ id. rest _ _ kept.takes_time λ at. of_lift host R kept _

  compile_approval_rule-kept :
      (action : InterceptedAction) (correction_id reason : String)
      → Moves R (compile_approval_rule host action correction_id reason)
  unfolding compile_approval_rule
  compile_approval_rule-kept action correction_id reason = rest _ _ kept.takes_id λ rule_id.
      rest _ _ kept.takes_id λ eval_case_id. rest _ _ kept.takes_time λ created_at.
        rest _ _ (of_lift host R kept _) λ rule.
          rest _ _ kept.takes_time
            λ graded_at. rest _ _ (of_lift host R kept _) λ eval_case. of_lift host R kept (ok _)

  approve_action-kept :
      (input : OperatorVerdictInput) (action : InterceptedAction)
      (original : Option InterceptedAction)
      → Moves R (approve_action host input action original)
  unfolding approve_action
  approve_action-kept input action original = rest _ _ (record_correction-kept _) λ correction.
      rest _ _ (kept.audits_verdict _ _ _) λ _.
        rest _ _ (record_history-kept host R kept _ _ _) λ _.
          rest _ _ (compile_approval_rule-kept _ _ _) λ compiled.
            rest _ _ (kept.puts_rule _)
              λ _. rest _ _ (kept.audits_rule _) λ _. of_lift host R kept (ok _)

  store_rule-kept :
      (activate : Bool) (rule : ActionPolicyRule) → Moves R (store_rule host activate rule)
  unfolding store_rule
  store_rule-kept false rule =
      rest _ _ (kept.puts_rule rule)
        λ _. rest _ _ (kept.audits_rule rule) λ _. of_lift host R kept (ok _)
  store_rule-kept true rule = rest _ _ (kept.puts_rule rule) λ _.
      rest _ _ (kept.audits_rule rule) λ _.
        rest _ _ (kept.updates_rule _)
          λ _. rest _ _ (kept.audits_rule _) λ _. of_lift host R kept (ok _)

  deny_action-kept :
      (input : OperatorVerdictInput) (action : InterceptedAction)
      (original : Option InterceptedAction)
      → Moves R (deny_action host input action original)
  unfolding deny_action
  deny_action-kept input action original = rest _ _ (record_correction-kept _) λ correction.
      rest _ _ (kept.audits_verdict _ _ _) λ _.
        rest _ _ (record_history-kept host R kept _ _ _) λ _.
          rest _ _ (kept.compiles correction (some action)) λ compiled.
            rest _ _ (Moves-for_each R kept.stays kept.follows _ _ (store_rule-kept _))
              λ stored. of_lift host R kept (ok _)

  by_verdict-kept :
      (input : OperatorVerdictInput) (action : InterceptedAction)
      (original : Option InterceptedAction) (verdict : OperatorVerdict)
      → Moves R (by_verdict host input action original verdict)
  by_verdict-kept input action original OperatorVerdict.approve =
      approve_action-kept input action original
  by_verdict-kept input action original OperatorVerdict.disapprove =
      deny_action-kept input action original

  decide_item-kept :
      (input : OperatorVerdictInput) (queued : InterceptedAction)
      (edited : Option InterceptedAction)
      → Moves R (decide_item host input queued edited)
  decide_item-kept input queued none = by_verdict-kept input queued none input.verdict
  decide_item-kept input queued (some edited) =
      rest _ _ (of_lift host R kept _)
        λ action. by_verdict-kept input action (some queued) input.verdict

  pub decide_queued-kept :
      (input : OperatorVerdictInput) (item : Option QueuedIntercept)
      → Moves R (decide_queued host input item)
  decide_queued-kept input none = record { at = λ g. kept.stays g }
  decide_queued-kept input (some item) = decide_item-kept input item.action input.edited_action

  module _ (dequeues : (id : String) → Moves R (take_from_queue id)) where
    pub operator_verdict-kept :
        (input : OperatorVerdictInput) → Moves R (operator_verdict host input)
    unfolding operator_verdict
    operator_verdict-kept input =
        rest _ _ (dequeues input.queue_id) λ item. decide_queued-kept input item

    resolve_all-kept :
        (verdict_on : QueuedIntercept → OperatorVerdictInput)
        → Moves R (resolve_all host verdict_on)
    unfolding resolve_all
    resolve_all-kept verdict_on =
        rest _ _ (record { at = λ g. kept.stays g })
          λ items.
            Moves-for_each R kept.stays kept.follows _ items
              λ item. operator_verdict-kept (verdict_on item)

    module _ (enqueues : (item : QueuedIntercept) → Moves R (put_in_queue host item)) where
      serve-kept : (request : Request) (g : GatewayState) → R g (serve host request g)
      unfolding serve forward_all drop_all
      serve-kept (Request.set_mode mode) g = kept.sets_mode mode g
      serve-kept (Request.set_scope scope) g = kept.sets_scope scope g
      serve-kept (Request.set_match_replace_rules rules) g = kept.sets_rules rules g
      serve-kept (Request.intercept_action action) g =
          (intercept-kept host R kept enqueues action).at g
      serve-kept (Request.report_outcome outcome) g =
          (record_action_outcome-kept host R kept outcome).at g
      serve-kept (Request.send_again input) g = (repeater-kept host R kept input).at g
      serve-kept (Request.give_verdict input) g = (operator_verdict-kept input).at g
      serve-kept (Request.forward_pending reason) g = (resolve_all-kept _).at g
      serve-kept (Request.drop_pending reason activate) g = (resolve_all-kept _).at g

      -- Whatever is asked of the gateway, in whatever order.
      pub serve_all-kept :
          (requests : List Request) (g : GatewayState) → R g (serve_all host requests g)
      unfolding serve_all
      serve_all-kept [] g = kept.stays g
      serve_all-kept (request ∷ requests) g =
          kept.follows g (serve host request g) _ (serve-kept request g)
            (serve_all-kept requests (serve host request g))
