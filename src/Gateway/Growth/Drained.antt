-- ===== src/Gateway/Growth/Drained.antt =====
-- The queue under the operator's verdicts: `operatorVerdict`, `forwardAll` and `dropAll` of
-- packages/integrations/intercept-gateway/src/gateway.ts.
use liminal_engine.Prelude.{
  String, template, eq_refl, ◌≡◌, refl, sym, ap, ap₂, subst, ◌∙◌, false, not, none, List, [], ◌∷◌,
  filter, All, All-filter, All-of_Member, Member, holds_of_Member, Result, ok, err, find-eq-none,
  Bool-cases, inl, inr,
}
use mathlib.Core.Bool.{false≢true}
use liminal_engine.Prelude.Sorting.{All-of_sort}
use liminal_engine.Prelude.Effect.{
  Effect, Moves, Moves->>=, Moves-for_each, for_each, ◌>>=◌, >>=-ends_ok,
}
use liminal_engine.Policy.Store.{put_rule, update_rule}
use liminal_engine.Policy.Queue.{QueuedIntercept, is_item, remove, pending, compare_items}
use liminal_engine.Governance.Journal.{Journal}
use liminal_engine.Gateway.History.{record_entry, record_outcome}
use liminal_engine.Gateway.State.{
  Host, GatewayState, on_journal, take_id, take_time, put_in_store, update_in_store,
  take_from_queue, put_in_history, settle_in_history, audit_rule, audit_event, append_verdict,
  stored, set_rules, set_history,
}
use liminal_engine.Gateway.Operator.{
  OperatorVerdictInput, OperatorVerdictResult, operator_verdict, resolve_all,
}
use liminal_engine.Gateway.Growth.{IsKept}
use liminal_engine.Gateway.Growth.Verdicts.{decide_queued-kept}

-- The queue is as before.
SameQueue : GatewayState → GatewayState → Type 0
SameQueue g h = h.queue ≡ g.queue

stored-SameQueue :
    {S : Type 0} (put : S → GatewayState → GatewayState) (g : GatewayState) (r : Result S)
    → ((s : S) → (put s g).queue ≡ g.queue)
    → SameQueue g (stored put g r).1
unfolding SameQueue
stored-SameQueue put g (ok s) h = h s
stored-SameQueue put g (err message) h = refl

dropped :
    {A : Type 0} (m : Effect Journal A) → Moves SameQueue (on_journal m >>= (λ a g. (ok tt, g)))
unfolding SameQueue
dropped m =
    Moves->>= SameQueue (λ g. refl) (λ f g h p q. q ∙ p) (on_journal m) _
      (record { at = λ g. refl }) λ a. record { at = λ g. refl }

module _ (host : Host) where
  gateway-SameQueue : IsKept host SameQueue
  unfolding SameQueue take_id take_time put_in_store update_in_store put_in_history
      settle_in_history audit_rule audit_event append_verdict
  gateway-SameQueue = record {
    stays = λ g. refl;
    follows = λ f g h p q. q ∙ p;
    takes_id = record { at = λ g. refl };
    takes_time = record { at = λ g. refl };
    puts_rule = λ rule. record {
      at = λ g. stored-SameQueue set_rules g (put_rule host.zod rule g.rules) λ rules. refl;
    };
    updates_rule = λ rule. record {
      at = λ g. stored-SameQueue set_rules g (update_rule host.zod rule g.rules) λ rules. refl;
    };
    records = λ entry. record {
      at = λ g. stored-SameQueue set_history g (record_entry entry g.history) λ history. refl;
    };
    settles = λ outcome. record {
      at = λ g. stored-SameQueue set_history g (record_outcome outcome g.history) λ history. refl;
    };
    audits_rule = λ rule. dropped _;
    audits_event = λ event. dropped _;
    audits_verdict = λ action d from. dropped _;
    compiles = λ correction action. record { at = λ g. refl };
    sets_mode = λ mode g. refl;
    sets_scope = λ scope g. refl;
    sets_rules = λ rules g. refl;
  }

  -- However a verdict ends, its item has left the queue, and no other.
  operator_verdict-queue :
      (input : OperatorVerdictInput) (g : GatewayState)
      → (operator_verdict host input g).1.queue ≡ (remove input.queue_id g.queue).1
  unfolding operator_verdict take_from_queue ◌>>=◌ SameQueue
  operator_verdict-queue input g =
      (decide_queued-kept host SameQueue gateway-SameQueue input _).at _

absent-after :
    (id : String) (items : List QueuedIntercept)
    → All (λ item. is_item id item ≡ false) (filter (λ item. not (is_item id item)) items)
absent-after id [] = tt
absent-after id (q ∷ items) = elim (Bool-cases (is_item id q)) [
  | inl e ↦ rw e (absent-after id items)
  | inr e ↦ rw e (e, absent-after id items)
]

filter-absent :
    (id : String) (items : List QueuedIntercept)
    → All (λ item. is_item id item ≡ false) items
    → filter (λ item. not (is_item id item)) items ≡ items
filter-absent id [] h = refl
filter-absent id (q ∷ items) (e, h) = rw e (ap (λ qs. q ∷ qs) (filter-absent id items h))

remove-absent :
    (id : String) (items : List QueuedIntercept)
    → All (λ item. is_item id item ≡ false) items
    → remove id items ≡ (none, items)
unfolding remove
remove-absent id items h =
    ap₂ (λ a b. (a, b)) (find-eq-none (is_item id) items h) (filter-absent id items h)

module _ (host : Host) where
  absent-verdict :
      (input : OperatorVerdictInput) (h : GatewayState)
      → All (λ item. is_item input.queue_id item ≡ false) h.queue
      → operator_verdict host input h
        ≡ (err (template ("no queued intercept " ∷ input.queue_id ∷ [])), h)
  unfolding operator_verdict take_from_queue ◌>>=◌
  absent-verdict input h absent = rw (remove-absent input.queue_id h.queue absent) refl

  removed-absent :
      (input : OperatorVerdictInput) (g : GatewayState)
      → All (λ item. is_item input.queue_id item ≡ false) (operator_verdict host input g).1.queue
  unfolding remove
  removed-absent input g =
      rw (operator_verdict-queue host input g) (absent-after input.queue_id g.queue)

  -- A held action is decided at most once: after a verdict on a queue id, however that verdict
  -- ended, another verdict on the same id throws and changes nothing.
  pub operator_verdict-once :
      (first second : OperatorVerdictInput) (g : GatewayState)
      → second.queue_id ≡ first.queue_id
      → operator_verdict host second (operator_verdict host first g).1 ≡ (
        err (template ("no queued intercept " ∷ second.queue_id ∷ [])),
        (operator_verdict host first g).1,
      )
  operator_verdict-once first second g same =
      absent-verdict second (operator_verdict host first g).1 (
        subst (λ id. All (λ item. is_item id item ≡ false) (operator_verdict host first g).1.queue)
          (sym same) (removed-absent first g))

  module _ (verdict_on : QueuedIntercept → OperatorVerdictInput)
      (on_item : (item : QueuedIntercept) → (verdict_on item).queue_id ≡ item.id) where
    resolving : QueuedIntercept → Effect GatewayState OperatorVerdictResult
    resolving item = operator_verdict host (verdict_on item)

    losing :
        (P : QueuedIntercept → Type 0) (item : QueuedIntercept)
        → Moves (λ s t. All P s.queue → All P t.queue) (resolving item)
    unfolding resolving remove
    losing P item = record {
      at = λ g k. rw (operator_verdict-queue host (verdict_on item) g) (All-filter P _ g.queue k);
    }

    -- The queue only loses items.
    queue-All :
        (P : QueuedIntercept → Type 0) (items : List QueuedIntercept) (g : GatewayState)
        → All P g.queue
        → All P (for_each resolving items g).1.queue
    queue-All P items g h =
        (Moves-for_each (λ s t. All P s.queue → All P t.queue) (λ s k. k) (λ r s t p q k. q (p k))
            resolving items λ item. losing P item).at
          g h

    -- Where the loop ends well, the items that it went over have left the queue.
    resolved-absent :
        (items : List QueuedIntercept) (g h : GatewayState) (answers : List OperatorVerdictResult)
        → for_each resolving items g ≡ (ok answers, h)
        → All (λ x. All (λ q. is_item x.id q ≡ false) h.queue) items
    unfolding resolving
    resolved-absent [] g h answers e = tt
    resolved-absent (x ∷ items) g h answers e =
        let (answer, u, first, rest) = >>=-ends_ok (resolving x) _ g e in
        let (others, v, second, last) = >>=-ends_ok (for_each resolving items) _ u rest in
        let none_left : All (λ q. is_item x.id q ≡ false) u.queue =
          subst (λ s. All (λ q. is_item x.id q ≡ false) s.queue) (ap (λ p. p.1) first)
            (subst (λ id. All (λ q. is_item id q ≡ false) (resolving x g).1.queue) (on_item x)
              (removed-absent (verdict_on x) g)) in
        let at_end : (for_each resolving items u).1 ≡ h =
          ap (λ p. p.1) second ∙ ap (λ p. p.1) last in
        (
          subst (λ s. All (λ q. is_item x.id q ≡ false) s.queue) at_end
              (queue-All (λ q. is_item x.id q ≡ false) items u none_left),
          subst (λ s. All (λ y. All (λ q. is_item y.id q ≡ false) s.queue) items)
              (ap (λ p. p.1) last) (resolved-absent items u v others second),
        )

    no-Member :
        (before left : List QueuedIntercept)
        → All (λ q. Member q before) left
        → All (λ x. All (λ q. is_item x.id q ≡ false) left) before
        → left ≡ []
    no-Member before [] m h = refl
    no-Member before (q ∷ left) (m, ms) h =
        let (own, others) =
          holds_of_Member (λ x. All (λ q. is_item x.id q ≡ false) (q ∷ left)) q before m h in
        absurd (false≢true (sym own ∙ eq_refl q.id))

    -- Where a verdict is given on each pending item, by a function that names the item's id, and
    -- all these verdicts end well, nothing is pending afterwards.
    pub resolve_all-drains :
        (g h : GatewayState) (answers : List OperatorVerdictResult)
        → resolve_all host verdict_on g ≡ (ok answers, h)
        → h.queue ≡ []
    unfolding resolve_all pending ◌>>=◌ resolving
    resolve_all-drains g h answers e =
        let items = pending host.locale_compare g.queue in
        no-Member g.queue h.queue
          (subst (λ s. All (λ q. Member q g.queue) s.queue) (ap (λ p. p.1) e)
            (queue-All (λ q. Member q g.queue) items g
              (All-of_Member (λ q. Member q g.queue) g.queue (λ a m. m))))
          (All-of_sort (λ x. All (λ q. is_item x.id q ≡ false) h.queue)
            (compare_items host.locale_compare) g.queue (resolved-absent items g h answers e))
