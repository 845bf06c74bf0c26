-- ===== src/Gateway/Intercept/Outcome.antt =====
-- How `intercept` of packages/integrations/intercept-gateway/src/gateway.ts ends, and what it leaves.
use liminal_engine.Prelude.{
  String, ◌≡◌, refl, sym, ap, subst, ◌∙◌, ◌+◌, true, false, Option, none, some, [], ◌∷◌, ◌++◌,
  Result, ok, err, Bool-cases, Result-cases, inl, inr,
}
use liminal_engine.Prelude.Effect.{◌>>=◌, >>=-ends_ok}
use liminal_engine.Contracts.Action.{InterceptedAction}
use liminal_engine.Contracts.PolicyRule.{Verdict, is_allow, is_ask}
use liminal_engine.Contracts.Parsing.{parse_action, is_valid_action}
use liminal_engine.Policy.Decision.{PolicyDecision}
use liminal_engine.Policy.Engine.{decide_from_store}
use liminal_engine.Policy.Store.{active_rules}
use liminal_engine.Policy.Queue.{QueuedIntercept, enqueue, enqueue-eq}
use liminal_engine.Governance.Ledger.{SealedAuditEvent}
use liminal_engine.Gateway.History.{ProxyHistoryEntry}
use liminal_engine.Governance.Journal.{next_id, now}
use liminal_engine.Gateway.State.{
  Host, GatewayState, PreparedAction, take_id, take_time, put_in_queue, decide_now, prepare_action,
  prepare_with, set_queue,
}
use liminal_engine.Governance.PolicyAudit.Verdicts.{IsVerdictEvent}
use liminal_engine.Gateway.Recorded.{IsRecorded, recorded}
use liminal_engine.Gateway.Intercept.{queue_failed, enqueue_action, hold, conclude, intercept}

-- What became of an action at the queue, between the states `g` and `h`.
pub data Held (action : InterceptedAction) (d : PolicyDecision) (g h : GatewayState)
    (held : Result (Option String)) : Type 0 where
  not_asked : is_ask d.verdict ≡ false → held ≡ ok none → h ≡ g → Held action d g h held
  queued :
      (item : QueuedIntercept)
      → is_ask d.verdict ≡ true
      → held ≡ ok (some item.id)
      → item.action ≡ action
      → h.queue ≡ g.queue ++ item ∷ []
      → Held action d g h held
  failed :
      (message : String)
      → is_ask d.verdict ≡ true
      → held ≡ err message
      → h.queue ≡ g.queue
      → Held action d g h held

-- Queueing an action touches the queue, and takes an id and a time.
pub record IsHeld (action : InterceptedAction) (d : PolicyDecision) (g h : GatewayState)
    (answer : Result (Option String)) : Type 0 where
  pub held : Held action d g h answer
  pub history : h.history ≡ g.history
  pub rules : h.rules ≡ g.rules
  pub ledger : h.journal.ledger ≡ g.journal.ledger

module _ (host : Host) where
  enqueued : (action : InterceptedAction) (g : GatewayState) → QueuedIntercept
  enqueued action g = record {
    id = host.deps.id_at g.journal.calls.ids;
    action = action;
    enqueued_at = host.deps.time_at g.journal.calls.times;
  }

  -- An id and a time were taken.
  ticked : GatewayState → GatewayState
  ticked g = record g {
    journal = record g.journal {
      calls = record { ids = g.journal.calls.ids + 1; times = g.journal.calls.times + 1 };
    };
  }

  hold-ends :
      (action : InterceptedAction) (d : PolicyDecision) (g : GatewayState)
      → (held : Result (Option String)) × (h : GatewayState) × (hold host action d g ≡ (ok held, h))
        × IsHeld action d g h held
  unfolding hold enqueue_action ◌>>=◌ take_id take_time next_id now put_in_queue enqueued ticked
  hold-ends action d g = elim (Bool-cases (is_ask d.verdict)) [
    | inr e ↦ (
      ok none,
      g,
      rw e refl,
      record { held = not_asked e refl refl; history = refl; rules = refl; ledger = refl },
    )
    | inl e ↦ elim (Result-cases (enqueue host.zod (enqueued action g) g.queue)) [
      | inl (queue, f) ↦ (
        ok (some (enqueued action g).id),
        set_queue queue (ticked g),
        rw (e, f) refl,
        record {
          held =
              queued (enqueued action g) e refl refl
                (enqueue-eq host.zod (enqueued action g) g.queue queue f);
          history = refl;
          rules = refl;
          ledger = refl;
        },
      )
      | inr (message, f) ↦ (
        err message,
        ticked g,
        rw (e, f) refl,
        record { held = failed message e refl refl; history = refl; rules = refl; ledger = refl },
      )
    ]
  ]

answer_of : Result (Result (Option String)) → Result (Option String)
answer_of (ok answer) = answer
answer_of (err message) = err message

hold-IsHeld :
    (host : Host) (action : InterceptedAction) (d : PolicyDecision) (g h : GatewayState)
    (held : Result (Option String))
    → hold host action d g ≡ (ok held, h)
    → IsHeld action d g h held
unfolding answer_of
hold-IsHeld host action d g h held e =
    let (held', h', made, facts) = hold-ends host action d g in
    subst (λ p. IsHeld action d g p.1 (answer_of p.0)) (sym made ∙ e) facts

-- What the engine answers for an action in the state `g`.
abbrev pub decided_in : Host → GatewayState → InterceptedAction → PolicyDecision
decided_in host g action =
    decide_from_store host.zod host.locale_compare action
      (ok (active_rules host.locale_compare g.rules)) (record { mode = g.mode; scope = g.scope })

-- The answer `d` of an interception and the queue after it, where the engine decided `decided`.
pub data OnQueue (action : InterceptedAction) (decided d : PolicyDecision) (g h : GatewayState)
    : Type 0 where
  not_asked :
      is_ask decided.verdict ≡ false
      → d ≡ decided
      → h.queue ≡ g.queue
      → OnQueue action decided d g h
  asked :
      (item : QueuedIntercept)
      → is_ask decided.verdict ≡ true
      → d ≡ decided
      → item.action ≡ action
      → h.queue ≡ g.queue ++ item ∷ []
      → OnQueue action decided d g h
  failed_closed :
      (message : String)
      → is_ask decided.verdict ≡ true
      → d ≡ queue_failed message
      → h.queue ≡ g.queue
      → OnQueue action decided d g h

-- What an interception that answers `d` leaves in the state `h`.
pub record IsIntercepted (host : Host) (raw : InterceptedAction) (g : GatewayState)
    (d : PolicyDecision) (h : GatewayState) : Type 0 where
  pub prepared : PreparedAction
  pub is_prepared : (prepare_action host raw true g).0 ≡ ok prepared
  pub queue : OnQueue prepared.action (decided_in host g prepared.action) d g h
  pub sealed : SealedAuditEvent
  pub ledger : h.journal.ledger ≡ g.journal.ledger ++ sealed ∷ []
  pub verdict : IsVerdictEvent host.who prepared.action d none sealed.event
  pub entry : ProxyHistoryEntry
  pub history : h.history ≡ g.history ++ entry ∷ []
  pub entry_action : entry.action ≡ prepared.action
  pub entry_decision : entry.decision ≡ d
  pub rules : h.rules ≡ g.rules

-- The decision as it was answered, after the queue.
abbrev answered : PolicyDecision → Result (Option String) → PolicyDecision
answered decided (ok queue_id) = decided
answered decided (err message) = queue_failed message

conclude-ok :
    (host : Host) (h : GatewayState) (d : PolicyDecision) (prepared : PreparedAction)
    (decided : PolicyDecision) (held : Result (Option String)) (u : GatewayState)
    → conclude host prepared decided held u ≡ (ok d, h)
    → (answered decided held ≡ d) × IsRecorded host prepared.action (answered decided held) none u h
unfolding conclude
conclude-ok host h d prepared decided (ok queue_id) u e =
    recorded host prepared.action decided none _ decided d u h e
conclude-ok host h d prepared decided (err message) u e =
    recorded host prepared.action (queue_failed message) none _ (queue_failed message) d u h e

on_queue :
    (g h : GatewayState) (d : PolicyDecision) (action : InterceptedAction)
    (decided : PolicyDecision) (held : Result (Option String)) (u : GatewayState)
    → Held action decided g u held
    → answered decided held ≡ d
    → h.queue ≡ u.queue
    → OnQueue action decided d g h
on_queue g h d action decided held u (not_asked p q r) e f =
    not_asked p (sym e ∙ ap (answered decided) q) (f ∙ ap (λ s. s.queue) r)
on_queue g h d action decided held u (queued item p q r s) e f =
    asked item p (sym e ∙ ap (answered decided) q) r (f ∙ s)
on_queue g h d action decided held u (failed message p q r) e f =
    failed_closed message p (sym e ∙ ap (answered decided) q) (f ∙ r)

thrown_not_ok :
    {message : String} {d : PolicyDecision} {g h : GatewayState}
    → ¬ (◌≡◌ {A = Result PolicyDecision × GatewayState} (err message, g) (ok d, h))
thrown_not_ok {message} {d} e = let wrong : err message ≡ ok d = ap (λ p. p.0) e in cc

pub ask_not_allow : (v : Verdict) → is_ask v ≡ true → ¬ (is_allow v ≡ true)
ask_not_allow Verdict.allow p q = cc
ask_not_allow Verdict.deny p q = cc
ask_not_allow Verdict.ask p q = cc

module _ (host : Host) where
  -- From the decision on, in the state that it was made in.
  held_and_concluded :
      (prepared : PreparedAction) (g h u : GatewayState) (d : PolicyDecision)
      (raw : InterceptedAction) (held : Result (Option String))
      → (prepare_action host raw true g).0 ≡ ok prepared
      → hold host prepared.action (decided_in host g prepared.action) g ≡ (ok held, u)
      → conclude host prepared (decided_in host g prepared.action) held u ≡ (ok d, h)
      → IsIntercepted host raw g d h
  held_and_concluded prepared g h u d raw held p q r =
      let decided = decided_in host g prepared.action in
      let kept = hold-IsHeld host prepared.action decided g u held q in
      let (same, left) = conclude-ok host h d prepared decided held u r in
      record {
        prepared = prepared;
        is_prepared = p;
        queue = on_queue g h d prepared.action decided held u kept.held same left.queue;
        sealed = left.sealed;
        ledger = left.ledger ∙ ap (λ l. l ++ left.sealed ∷ []) kept.ledger;
        verdict =
            subst (λ x. IsVerdictEvent host.who prepared.action x none left.sealed.event) same
              left.verdict;
        entry = left.entry;
        history = left.history ∙ ap (λ l. l ++ left.entry ∷ []) kept.history;
        entry_action = left.entry_action;
        entry_decision = left.entry_decision ∙ same;
        rules = left.rules ∙ kept.rules;
      }

  -- An interception that ends well appends one audit event, which records, for the transformed
  -- action, the verdict, the allowance, the reasons, the requirements, the source and the source
  -- rule of the decision that is answered, and one history entry with that action and that
  -- decision, and leaves the store as it was. The decision is the engine's; where the engine
  -- asks, either the action was put in the queue, or queueing threw, and the answer is the denial
  -- that says so.
  pub intercept-IsIntercepted :
      (raw : InterceptedAction) (g h : GatewayState) (d : PolicyDecision)
      → intercept host raw g ≡ (ok d, h)
      → IsIntercepted host raw g d h
  unfolding intercept decide_now prepare_action parse_action ◌>>=◌
  intercept-IsIntercepted raw g h d e = elim (Bool-cases (is_valid_action host.zod raw)) [
    | inr invalid ↦ let bad : _ = rw invalid at e in absurd (thrown_not_ok bad)
    | inl valid ↦ elim (Result-cases (prepare_with host.zod raw true g.match_replace_rules)) [
      | inr (message, thrown) ↦ let bad : _ = rw (valid, thrown) at e in absurd (thrown_not_ok bad)
      | inl (prepared, made) ↦
          let rest : _ = rw (valid, made) at e in
          let decided = decided_in host g prepared.action in
          let (held, u, kept, last) =
            >>=-ends_ok (hold host prepared.action decided)
              (λ held. conclude host prepared decided held) g rest in
          held_and_concluded prepared g h u d raw held made kept last
    ]
  ]
