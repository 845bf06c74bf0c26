-- ===== src/Gateway/Intercept/Allowed.antt =====
-- An interception that lets the action run: `intercept` of
-- packages/integrations/intercept-gateway/src/gateway.ts.
use liminal_engine.Prelude.{◌≡◌, sym, ap, subst, ◌∙◌, true, ok}
use mathlib.Core.Bool.{false≢true}
use liminal_engine.Contracts.Action.{InterceptedAction}
use liminal_engine.Contracts.Parsing.{is_valid_action}
use liminal_engine.Policy.Decision.{DecideDeps, PolicyDecision}
use liminal_engine.Policy.Engine.Laws.{
  IsJustified, decide_from_store-IsJustified, decide_from_store-allowed,
}
use liminal_engine.Policy.Store.{active_rules}
use liminal_engine.Gateway.State.{Host, GatewayState, PreparedAction, prepare_action}
use liminal_engine.Gateway.Intercept.{intercept}
use liminal_engine.Gateway.Intercept.Outcome.{
  OnQueue, not_asked, asked, failed_closed, decided_in, ask_not_allow, intercept-IsIntercepted,
}

module _ (host : Host) where
  engine : GatewayState → DecideDeps
  engine g = record { mode = g.mode; scope = g.scope }

  allowed_on_queue :
      (g h : GatewayState) (d : PolicyDecision) (action : InterceptedAction)
      → d.allowed ≡ true
      → OnQueue action (decided_in host g action) d g h
      → (h.queue ≡ g.queue)
        × (is_valid_action host.zod action ≡ true)
        × IsJustified host.zod host.locale_compare action
            (active_rules host.locale_compare g.rules)
            (engine g)
            d
  unfolding engine
  allowed_on_queue g h d action allowed (not_asked p q r) =
      let (rules, same, valid, why) =
        decide_from_store-IsJustified host.zod host.locale_compare action
          (ok (active_rules host.locale_compare g.rules)) (engine g)
          (sym (ap (λ a. a.allowed) q) ∙ allowed) in
      let eq : active_rules host.locale_compare g.rules ≡ rules = cc in
      (
        r,
        valid,
        subst (λ rs. IsJustified host.zod host.locale_compare action rs (engine g) d) (sym eq)
            (subst (λ x. IsJustified host.zod host.locale_compare action rules (engine g) x) (sym q)
              why),
      )
  allowed_on_queue g h d action allowed (asked item p q r s) = absurd (
      ask_not_allow (decided_in host g action).verdict p (
        sym (
          decide_from_store-allowed host.zod host.locale_compare action
            (ok (active_rules host.locale_compare g.rules)) (engine g))
        ∙ sym (ap (λ a. a.allowed) q)
        ∙ allowed))
  allowed_on_queue g h d action allowed (failed_closed message p q r) =
      absurd (false≢true (sym (ap (λ a. a.allowed) q) ∙ allowed))

  -- Where an interception answers that the action may run, the match-and-replace rules gave a
  -- valid action, the answer is justified for it by the active rules of the store in the
  -- gateway's mode and scope, as for the engine's own answers, and the queue is as it was before.
  pub intercept-allowed :
      (raw : InterceptedAction) (g h : GatewayState) (d : PolicyDecision)
      → intercept host raw g ≡ (ok d, h)
      → d.allowed ≡ true
      → (prepared : PreparedAction) × ((prepare_action host raw true g).0 ≡ ok prepared)
        × (h.queue ≡ g.queue)
        × (is_valid_action host.zod prepared.action ≡ true)
        × IsJustified host.zod host.locale_compare prepared.action
            (active_rules host.locale_compare g.rules)
            (record { mode = g.mode; scope = g.scope })
            d
  unfolding engine
  intercept-allowed raw g h d e allowed =
      let facts = intercept-IsIntercepted host raw g h d e in
      let (queue, valid, why) = allowed_on_queue g h d facts.prepared.action allowed facts.queue in
      (facts.prepared, facts.is_prepared, queue, valid, why)
