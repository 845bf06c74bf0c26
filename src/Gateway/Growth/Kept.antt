-- ===== src/Gateway/Growth/Kept.antt =====
-- What no method of packages/integrations/intercept-gateway/src/gateway.ts takes back: the ledger, the
-- history and the learned rules.
use liminal_engine.Prelude.{
  String, eq_iff, ◌≡◌, refl, sym, ap, ◌∙◌, not, none, List, [], ◌∷◌, ◌++◌, map, any, Result, ok,
  err, >>=-eq-ok, guard, Bool-cases, inl, inr,
}
use liminal_engine.Prelude.Grown.{IsGrown, IsGrown-refl, IsGrown-trans, map-append}
use liminal_engine.Prelude.Effect.{Effect, Moves, Moves->>=, ◌>>=◌}
use liminal_engine.Contracts.Zod.{Zod}
use liminal_engine.Contracts.PolicyRule.{ActionPolicyRule}
use liminal_engine.Contracts.Parsing.{parse_rule}
use liminal_engine.Policy.Store.{has_rule_id, replace, put_rule, update_rule}
use liminal_engine.Policy.Queue.{QueuedIntercept, enqueue, remove}
use liminal_engine.Governance.Journal.{
  Journal, IsExtended, IsExtended-refl, IsExtended-trans, Extending, next_id-Extending,
  now-Extending, append_to_ledger-Extending,
}
use liminal_engine.Governance.PolicyAudit.Rebuilt.{
  append_policy_verdict_audit-Extending, append_policy_rule_audit-Extending,
}
use liminal_engine.Governance.Correction.Frugal.{compile_correction-Extending}
use liminal_engine.Gateway.History.{
  ProxyOutcome, ProxyHistoryEntry, is_entry, concerns_action, record_entry, record_outcome, settle,
}
use liminal_engine.Gateway.State.{
  Host, GatewayState, on_journal, take_id, take_time, put_in_store, update_in_store, put_in_queue,
  take_from_queue, put_in_history, settle_in_history, audit_rule, audit_event, append_verdict,
  stored, set_rules, set_queue, set_history,
}
use liminal_engine.Gateway.Operator.{Request, serve_all}
use liminal_engine.Gateway.Growth.{IsKept}
use liminal_engine.Gateway.Growth.Verdicts.{serve_all-kept}

-- A history entry without its outcome.
abbrev pub unsettled : ProxyHistoryEntry → ProxyHistoryEntry
unsettled entry = record entry { outcome = none }

-- The ledger is extended; the history holds its entries, but for their outcomes, and the store its
-- rules, by their ids, in the same order, with the new ones after them.
pub record Grows (g h : GatewayState) : Type 0 where
  pub ledger : IsExtended g.journal.ledger h.journal.ledger
  pub history : IsGrown (map unsettled g.history) (map unsettled h.history)
  pub rules : IsGrown (map (λ r. r.id) g.rules) (map (λ r. r.id) h.rules)

Grows-refl : (g : GatewayState) → Grows g g
Grows-refl g = record {
  ledger = IsExtended-refl g.journal.ledger;
  history = IsGrown-refl (map unsettled g.history);
  rules = IsGrown-refl (map (λ r. r.id) g.rules);
}

Grows-trans : (f g h : GatewayState) → Grows f g → Grows g h → Grows f h
Grows-trans f g h p q = record {
  ledger = IsExtended-trans _ _ _ p.ledger q.ledger;
  history = IsGrown-trans _ _ _ p.history q.history;
  rules = IsGrown-trans _ _ _ p.rules q.rules;
}

on_journal-Grows : {A : Type 0} (m : Effect Journal A) → Extending m → Moves Grows (on_journal m)
on_journal-Grows m h = record {
  at = λ g. record {
    ledger = h.at g.journal;
    history = IsGrown-refl (map unsettled g.history);
    rules = IsGrown-refl (map (λ r. r.id) g.rules);
  };
}

-- The answer of a journal's method is dropped.
dropped :
    {A : Type 0} (m : Effect Journal A)
    → Extending m
    → Moves Grows (on_journal m >>= (λ a g. (ok tt, g)))
dropped m h =
    Moves->>= Grows Grows-refl Grows-trans (on_journal m) _ (on_journal-Grows m h)
      λ a. record { at = λ g. Grows-refl g }

with_rules :
    (rules : List ActionPolicyRule) (g : GatewayState)
    → IsGrown (map (λ r. r.id) g.rules) (map (λ r. r.id) rules)
    → Grows g (record g { rules = rules })
with_rules rules g h = record {
  ledger = IsExtended-refl g.journal.ledger;
  history = IsGrown-refl (map unsettled g.history);
  rules = h;
}

with_history :
    (history : List ProxyHistoryEntry) (g : GatewayState)
    → IsGrown (map unsettled g.history) (map unsettled history)
    → Grows g (record g { history = history })
with_history history g h = record {
  ledger = IsExtended-refl g.journal.ledger;
  history = h;
  rules = IsGrown-refl (map (λ r. r.id) g.rules);
}

with_queue :
    (queue : List QueuedIntercept) (g : GatewayState) → Grows g (record g { queue = queue })
with_queue queue g = record {
  ledger = IsExtended-refl g.journal.ledger;
  history = IsGrown-refl (map unsettled g.history);
  rules = IsGrown-refl (map (λ r. r.id) g.rules);
}

put_rule-IsGrown :
    (zod : Zod) (rule : ActionPolicyRule) (rules after : List ActionPolicyRule)
    → put_rule zod rule rules ≡ ok after
    → IsGrown (map (λ r. r.id) rules) (map (λ r. r.id) after)
unfolding put_rule
put_rule-IsGrown zod rule rules after h =
    let (parsed, p, k) = >>=-eq-ok (parse_rule zod rule) _ h in
    let (u, q, made) = >>=-eq-ok (guard (not (any (has_rule_id parsed.id) rules)) _) _ k in
    let same : rules ++ parsed ∷ [] ≡ after = cc in
    record {
      added = parsed.id ∷ [];
      at_end = sym (ap (map (λ r. r.id)) same) ∙ map-append (λ r. r.id) rules (parsed ∷ []);
    }

ids-replace :
    (rule : ActionPolicyRule) (rules : List ActionPolicyRule)
    → map (λ r. r.id) (replace rule rules) ≡ map (λ r. r.id) rules
unfolding replace
ids-replace rule [] = refl
ids-replace rule (r ∷ rules) = elim (Bool-cases (has_rule_id rule.id r)) [
  | inl e ↦ rw e (ap (λ id. id ∷ map (λ r. r.id) rules) (sym ((eq_iff r.id rule.id).0 e)))
  | inr e ↦ rw (e, ids-replace rule rules)
]

update_rule-IsGrown :
    (zod : Zod) (rule : ActionPolicyRule) (rules after : List ActionPolicyRule)
    → update_rule zod rule rules ≡ ok after
    → IsGrown (map (λ r. r.id) rules) (map (λ r. r.id) after)
unfolding update_rule
update_rule-IsGrown zod rule rules after h =
    let (parsed, p, k) = >>=-eq-ok (parse_rule zod rule) _ h in
    let (u, q, made) = >>=-eq-ok (guard (any (has_rule_id parsed.id) rules) _) _ k in
    let same : replace parsed rules ≡ after = cc in
    rw (← same, ids-replace parsed rules) (IsGrown-refl (map (λ r. r.id) rules))

record_entry-IsGrown :
    (entry : ProxyHistoryEntry) (entries after : List ProxyHistoryEntry)
    → record_entry entry entries ≡ ok after
    → IsGrown (map unsettled entries) (map unsettled after)
unfolding record_entry
record_entry-IsGrown entry entries after h =
    let (u, q, made) = >>=-eq-ok (guard (not (any (is_entry entry.id) entries)) _) _ h in
    let same : entries ++ entry ∷ [] ≡ after = cc in
    record {
      added = unsettled entry ∷ [];
      at_end = sym (ap (map unsettled) same) ∙ map-append unsettled entries (entry ∷ []);
    }

unsettled-settle :
    (outcome : ProxyOutcome) (entries : List ProxyHistoryEntry)
    → map unsettled (map (settle outcome) entries) ≡ map unsettled entries
unsettled-settle outcome [] = refl
unsettled-settle outcome (e ∷ entries) = elim (Bool-cases (concerns_action outcome.action_id e)) [
  | inl f ↦ rw (f, unsettled-settle outcome entries)
  | inr f ↦ rw (f, unsettled-settle outcome entries)
]

record_outcome-IsGrown :
    (outcome : ProxyOutcome) (entries after : List ProxyHistoryEntry)
    → record_outcome outcome entries ≡ ok after
    → IsGrown (map unsettled entries) (map unsettled after)
unfolding record_outcome
record_outcome-IsGrown outcome entries after h =
    let (u, q, made) = >>=-eq-ok (guard (any (concerns_action outcome.action_id) entries) _) _ h in
    let same : map (settle outcome) entries ≡ after = cc in
    rw (← same, unsettled-settle outcome entries) (IsGrown-refl (map unsettled entries))

-- A store that throws is left as it was.
stored-Grows :
    {S : Type 0} (put : S → GatewayState → GatewayState) (g : GatewayState) (r : Result S)
    → ((s : S) → r ≡ ok s → Grows g (put s g))
    → Grows g (stored put g r).1
stored-Grows put g (ok s) h = h s refl
stored-Grows put g (err message) h = Grows-refl g

module _ (host : Host) where
  gateway-Grows : IsKept host Grows
  unfolding take_id take_time put_in_store update_in_store put_in_queue take_from_queue
      put_in_history settle_in_history audit_rule audit_event append_verdict
  gateway-Grows = record {
    stays = Grows-refl;
    follows = Grows-trans;
    takes_id = on_journal-Grows _ (next_id-Extending host.deps);
    takes_time = on_journal-Grows _ (now-Extending host.deps);
    puts_rule = λ rule. record {
      at = λ g.
          stored-Grows set_rules g (put_rule host.zod rule g.rules)
            λ rules e. with_rules rules g (put_rule-IsGrown host.zod rule g.rules rules e);
    };
    updates_rule = λ rule. record {
      at = λ g.
          stored-Grows set_rules g (update_rule host.zod rule g.rules)
            λ rules e. with_rules rules g (update_rule-IsGrown host.zod rule g.rules rules e);
    };
    records = λ entry. record {
      at = λ g.
          stored-Grows set_history g (record_entry entry g.history)
            λ history e. with_history history g (record_entry-IsGrown entry g.history history e);
    };
    settles = λ outcome. record {
      at = λ g.
          stored-Grows set_history g (record_outcome outcome g.history) λ history e.
            with_history history g (record_outcome-IsGrown outcome g.history history e);
    };
    audits_rule =
        λ rule. dropped _ (append_policy_rule_audit-Extending host.zod host.deps host.who rule);
    audits_event = λ event. dropped _ (append_to_ledger-Extending host.zod event);
    audits_verdict = λ action d from.
        dropped _ (append_policy_verdict_audit-Extending host.zod host.deps host.who action d from);
    compiles = λ correction action.
        on_journal-Grows _
          (compile_correction-Extending host.zod host.casing host.deps correction action);
    sets_mode = λ mode g. record {
      ledger = IsExtended-refl g.journal.ledger;
      history = IsGrown-refl (map unsettled g.history);
      rules = IsGrown-refl (map (λ r. r.id) g.rules);
    };
    sets_scope = λ scope g. record {
      ledger = IsExtended-refl g.journal.ledger;
      history = IsGrown-refl (map unsettled g.history);
      rules = IsGrown-refl (map (λ r. r.id) g.rules);
    };
    sets_rules = λ rules g. record {
      ledger = IsExtended-refl g.journal.ledger;
      history = IsGrown-refl (map unsettled g.history);
      rules = IsGrown-refl (map (λ r. r.id) g.rules);
    };
  }

  enqueues : (item : QueuedIntercept) → Moves Grows (put_in_queue host item)
  unfolding put_in_queue
  enqueues item = record {
    at =
        λ g. stored-Grows set_queue g (enqueue host.zod item g.queue) λ queue e. with_queue queue g;
  }

  dequeues : (id : String) → Moves Grows (take_from_queue id)
  unfolding take_from_queue
  dequeues id = record { at = λ g. with_queue (remove id g.queue).1 g }

  -- Whatever requests the gateway serves, in whatever order, and whichever of them throw, the
  -- audit ledger is extended and verifies afterwards if it did before, the history keeps every
  -- entry, but for its outcome, and the store every rule id, each in their order, with new ones
  -- after them.
  pub serve_all-Grows :
      (requests : List Request) (g : GatewayState) → Grows g (serve_all host requests g)
  serve_all-Grows requests g = serve_all-kept host Grows gateway-Grows dequeues enqueues requests g
