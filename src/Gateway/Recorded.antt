-- ===== src/Gateway/Recorded.antt =====
-- What a verdict leaves behind when it is audited and recorded: `appendVerdict` and `recordHistory` of
-- packages/integrations/intercept-gateway/src/gateway.ts.
use liminal_engine.Prelude.{
  String, ◌≡◌, refl, sym, ap, ◌∙◌, Option, [], ◌∷◌, ◌++◌, any, ok, Bool-cases, inl, inr,
}
use liminal_engine.Prelude.Effect.{Effect, return, ◌>>=◌, >>=-ends_ok}
use liminal_engine.Contracts.Action.{InterceptedAction}
use liminal_engine.Policy.Decision.{PolicyDecision}
use liminal_engine.Governance.Ledger.{SealedAuditEvent}
use liminal_engine.Governance.Journal.{Journal, next_id, now}
use liminal_engine.Governance.PolicyAudit.{append_policy_verdict_audit}
use liminal_engine.Governance.PolicyAudit.Verdicts.{IsVerdictEvent, append_policy_verdict_audit-ok}
use liminal_engine.Gateway.History.{ProxyHistoryEntry, is_entry, record_entry}
use liminal_engine.Gateway.State.{
  Host, GatewayState, HistoryOptions, on_journal, set_history, append_verdict, record_history,
  put_in_history, take_id, take_time,
}

-- One event for the verdict at the end of the ledger, one entry for it at the end of the history, and
-- nothing else but the answers taken from the clock and the generator.
pub record IsRecorded (host : Host) (action : InterceptedAction) (d : PolicyDecision)
    (from : Option String) (g h : GatewayState) : Type 0 where
  pub sealed : SealedAuditEvent
  pub ledger : h.journal.ledger ≡ g.journal.ledger ++ sealed ∷ []
  pub verdict : IsVerdictEvent host.who action d from sealed.event
  pub entry : ProxyHistoryEntry
  pub history : h.history ≡ g.history ++ entry ∷ []
  pub entry_action : entry.action ≡ action
  pub entry_decision : entry.decision ≡ d
  pub queue : h.queue ≡ g.queue
  pub rules : h.rules ≡ g.rules

pub on_journal-ok :
    {A : Type 0} (m : Effect Journal A) (g h : GatewayState) (a : A)
    → on_journal m g ≡ (ok a, h)
    → (j : Journal) × (m g.journal ≡ (ok a, j)) × (h ≡ record g { journal = j })
on_journal-ok m g h a e =
    ((m g.journal).1, ap (λ p. (p.0, (m g.journal).1)) e, sym (ap (λ p. p.1) e))

record_entry-ok :
    (entry : ProxyHistoryEntry) (g h : GatewayState)
    → put_in_history entry g ≡ (ok tt, h)
    → h ≡ set_history (g.history ++ entry ∷ []) g
unfolding put_in_history record_entry
record_entry-ok entry g h e = elim (Bool-cases (any (is_entry entry.id) g.history)) [
  | inl taken ↦ let bad : _ = rw taken at e in cc
  | inr free ↦ let made : _ = rw free at e in sym (ap (λ p. p.1) made)
]

module _ (host : Host) (action : InterceptedAction) (d : PolicyDecision) where
  pub append_verdict-ok :
      (from : Option String) (g h : GatewayState)
      → append_verdict host action d from g ≡ (ok tt, h)
      → (sealed : SealedAuditEvent) × (j : Journal) × (j.ledger ≡ g.journal.ledger ++ sealed ∷ [])
        × IsVerdictEvent host.who action d from sealed.event
        × (h ≡ record g { journal = j })
  unfolding append_verdict
  append_verdict-ok from g h e =
      let (sealed, u, first, last) = >>=-ends_ok _ _ g e in
      let (j, made, at) =
        on_journal-ok (append_policy_verdict_audit host.zod host.deps host.who action d from) g u
          sealed first in
      let (grown, named) =
        append_policy_verdict_audit-ok host.zod host.deps host.who action d from g.journal j sealed
          made in
      (sealed, j, grown, named, sym (ap (λ p. p.1) last) ∙ at)

  pub record_history-ok :
      (options : HistoryOptions) (g h : GatewayState)
      → record_history host action d options g ≡ (ok tt, h)
      → (entry : ProxyHistoryEntry) × (j : Journal) × (j.ledger ≡ g.journal.ledger)
        × (entry.action ≡ action)
        × (entry.decision ≡ d)
        × (h ≡ record g { journal = j; history = g.history ++ entry ∷ [] })
  unfolding record_history ◌>>=◌ take_id take_time next_id now
  record_history-ok options g h e = (_, _, refl, refl, refl, record_entry-ok _ _ h e)

  -- The two together.
  pub recorded :
      {A : Type 0} (from : Option String) (options : HistoryOptions) (x a : A) (g h : GatewayState)
      → (append_verdict host action d from >>= λ _.
            record_history host action d options >>= λ _. return x)
          g
        ≡ (ok a, h)
      → (x ≡ a) × IsRecorded host action d from g h
  recorded from options x a g h e =
      let (_, u, first, rest) = >>=-ends_ok _ _ g e in
      let (_, v, second, last) = >>=-ends_ok _ _ u rest in
      let (sealed, j, grown, named, at_u) = append_verdict-ok from g u first in
      let (entry, k, same, of_action, of_decision, at_v) = record_history-ok options u v second in
      let at_h : h ≡ v = sym (ap (λ p. p.1) last) in
      let value : ok x ≡ ok a = ap (λ p. p.0) last in
      (
        cc,
        record {
          sealed = sealed;
          ledger =
              ap (λ s. s.journal.ledger) (at_h ∙ at_v)
              ∙ same
              ∙ ap (λ s. s.journal.ledger) at_u
              ∙ grown;
          verdict = named;
          entry = entry;
          history = ap (λ s. s.history) (at_h ∙ at_v) ∙ ap (λ s. s.history ++ entry ∷ []) at_u;
          entry_action = of_action;
          entry_decision = of_decision;
          queue = ap (λ s. s.queue) (at_h ∙ at_v) ∙ ap (λ s. s.queue) at_u;
          rules = ap (λ s. s.rules) (at_h ∙ at_v) ∙ ap (λ s. s.rules) at_u;
        },
      )
