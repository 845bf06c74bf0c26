-- ===== src/Gateway/Operator/Approved.antt =====
-- What an approval of a queued action leaves: `operatorVerdict` of
-- packages/integrations/intercept-gateway/src/gateway.ts.
use liminal_engine.Prelude.{
  ◌+◌, String, ◌≡◌, refl, sym, ap, ◌∙◌, true, false, Option, none, some, List, [], ◌∷◌, ◌++◌, any,
  All, Result, ok, err, Bool-cases, Result-cases, inl, inr,
}
use liminal_engine.Prelude.Effect.{Effect, Moves, Moves->>=, Moves-ends_ok, ◌>>=◌, >>=-ends_ok}
use liminal_engine.Contracts.Action.{InterceptedAction}
use liminal_engine.Contracts.PolicyRule.{ActionPolicyRule}
use liminal_engine.Contracts.Correction.{EvalCase}
use liminal_engine.Contracts.Parsing.{
  is_valid_action, is_valid_rule, parse_rule, parse_rule-eq, parse_eval_case,
}
use liminal_engine.Policy.Scope.{ProxyScope, evaluate_scope}
use liminal_engine.Policy.Decision.{PolicyMode, is_shadow}
use liminal_engine.Policy.Store.{has_rule_id, put_rule, active_rules}
use liminal_engine.Policy.Queue.{QueuedIntercept, remove}
use liminal_engine.Policy.Engine.{decision_from_rule, decide_from_store}
use liminal_engine.Policy.Engine.Modes.{fits}
use liminal_engine.Governance.Journal.{next_id, now}
use liminal_engine.Gateway.State.{
  Host, GatewayState, take_id, take_time, put_in_store, take_from_queue, audit_rule, append_verdict,
}
use liminal_engine.Gateway.Recorded.{record_history-ok}
use liminal_engine.Gateway.Approval.{approval_rule, approval_case, compile_approval_rule}
use liminal_engine.Gateway.Approval.Governing.{approval_rule-Governs}
use liminal_engine.Gateway.Approval.Learned.{stored_rules, decides, allow-decides}
use liminal_engine.Gateway.Operator.{
  OperatorVerdictInput, OperatorVerdictResult, operator_allows, to_forward, record_correction,
  approve_action, operator_verdict,
}

thrown_not_ok :
    {A : Type 0} {message : String} {a : A} {g h : GatewayState}
    → ¬ (◌≡◌ {A = Result A × GatewayState} (err message, g) (ok a, h))
thrown_not_ok {message} {a} e = let wrong : err message ≡ ok a = ap (λ p. p.0) e in cc

rules_of : Result OperatorVerdictResult → List ActionPolicyRule
rules_of (ok answer) = answer.compiled_rules
rules_of (err message) = []

-- The store is as before.
SameRules : GatewayState → GatewayState → Type 0
SameRules g h = h.rules ≡ g.rules

rest :
    {A B : Type 0} (m : Effect GatewayState A) (next : A → Effect GatewayState B)
    → Moves SameRules m
    → ((a : A) → Moves SameRules (next a))
    → Moves SameRules (m >>= next)
unfolding SameRules
rest = Moves->>= SameRules (λ g. refl) (λ f g h p q. q ∙ p)

module _ (host : Host) where
  take_id-SameRules : Moves SameRules (take_id host)
  unfolding take_id SameRules
  take_id-SameRules = record { at = λ g. refl }

  take_time-SameRules : Moves SameRules (take_time host)
  unfolding take_time SameRules
  take_time-SameRules = record { at = λ g. refl }

  audit_rule-SameRules : (rule : ActionPolicyRule) → Moves SameRules (audit_rule host rule)
  unfolding audit_rule SameRules
  audit_rule-SameRules rule =
      rest _ _ (record { at = λ g. refl }) λ sealed. record { at = λ g. refl }

  record_correction-SameRules : (words : String) → Moves SameRules (record_correction host words)
  unfolding record_correction SameRules
  record_correction-SameRules words =
      rest _ _ take_id-SameRules λ id. rest _ _ take_time-SameRules λ at. record { at = λ g. refl }

  append_verdict-SameRules :
      (action : InterceptedAction) (d : _) (from : Option String)
      → Moves SameRules (append_verdict host action d from)
  unfolding append_verdict SameRules
  append_verdict-SameRules action d from =
      rest _ _ (record { at = λ g. refl }) λ sealed. record { at = λ g. refl }

  put_in_store-ok :
      (rule : ActionPolicyRule) (g h : GatewayState)
      → put_in_store host rule g ≡ (ok tt, h)
      → (is_valid_rule host.zod rule ≡ true) × (h.rules ≡ g.rules ++ rule ∷ [])
  unfolding put_in_store put_rule parse_rule
  put_in_store-ok rule g h e = elim (Bool-cases (is_valid_rule host.zod rule)) [
    | inr invalid ↦ let bad : _ = rw invalid at e in cc
    | inl valid ↦ elim (Bool-cases (any (has_rule_id rule.id) g.rules)) [
      | inl taken ↦ let bad : _ = rw (valid, taken) at e in cc
      | inr free ↦ let made : _ = rw (valid, free) at e in (valid, sym (ap (λ p. p.1.rules) made))
    ]
  ]

  -- The compiled rule is the one that the approved action's class gets.
  record IsCompiled (action : InterceptedAction) (correction_id : String)
      (compiled : ActionPolicyRule × EvalCase) (g h : GatewayState) : Type 0 where
    id : String
    eval_case_id : String
    created_at : String
    is_rule : compiled.0 ≡ approval_rule action correction_id id eval_case_id created_at
    same_rules : h.rules ≡ g.rules

  compile_approval_rule-ok :
      (action : InterceptedAction) (correction_id reason : String)
      (compiled : ActionPolicyRule × EvalCase) (g h : GatewayState)
      → compile_approval_rule host action correction_id reason g ≡ (ok compiled, h)
      → IsCompiled action correction_id compiled g h
  unfolding compile_approval_rule ◌>>=◌ take_id take_time next_id now
  compile_approval_rule-ok action correction_id reason compiled g h e =
      let id = host.deps.id_at g.journal.calls.ids in
      let eval_case_id = host.deps.id_at (g.journal.calls.ids + 1) in
      let at = host.deps.time_at g.journal.calls.times in
      let rule = approval_rule action correction_id id eval_case_id at in
      elim (Result-cases (parse_rule host.zod rule)) [
        | inr (message, thrown) ↦ let bad : _ = rw thrown at e in absurd (thrown_not_ok bad)
        | inl (parsed, p) ↦
            let graded = host.deps.time_at (g.journal.calls.times + 1) in
            elim (Result-cases
              (parse_eval_case host.zod (approval_case host.who action reason parsed graded))) [
                | inr (message, thrown) ↦
                    let bad : _ = rw (p, thrown) at e in absurd (thrown_not_ok bad)
                | inl (eval_case, q) ↦
                    let made : _ = rw (p, q) at e in
                    let same : ok (parsed, eval_case) ≡ ok compiled = ap (λ s. s.0) made in
                    let pair : ◌≡◌ {A = ActionPolicyRule × EvalCase} (parsed, eval_case) compiled =
                      cc in
                    record {
                      id = id;
                      eval_case_id = eval_case_id;
                      created_at = at;
                      is_rule =
                          sym (ap (λ c. c.0) pair) ∙ sym (parse_rule-eq host.zod rule parsed p);
                      same_rules = sym (ap (λ s. s.1.rules) made);
                    }
              ]
      ]

  -- What an approval leaves in the store.
  pub record IsApproved (action : InterceptedAction) (g : GatewayState)
      (answer : OperatorVerdictResult) (h : GatewayState) : Type 0 where
    pub rule : ActionPolicyRule
    pub correction_id : String
    pub id : String
    pub eval_case_id : String
    pub created_at : String
    pub answered : answer.compiled_rules ≡ rule ∷ []
    pub is_rule : rule ≡ approval_rule action correction_id id eval_case_id created_at
    pub is_valid : is_valid_rule host.zod rule ≡ true
    pub in_store : h.rules ≡ g.rules ++ rule ∷ []

  approve_action-IsApproved :
      (input : OperatorVerdictInput) (action : InterceptedAction)
      (original : Option InterceptedAction) (answer : OperatorVerdictResult) (g h : GatewayState)
      → approve_action host input action original g ≡ (ok answer, h)
      → IsApproved action g answer h
  unfolding approve_action SameRules rules_of
  approve_action-IsApproved input action original answer g h e =
      let (correction, g₁, first, e₁) = >>=-ends_ok _ _ g e in
      let (_, g₂, second, e₂) = >>=-ends_ok _ _ g₁ e₁ in
      let (_, g₃, third, e₃) = >>=-ends_ok _ _ g₂ e₂ in
      let (compiled, g₄, fourth, e₄) = >>=-ends_ok _ _ g₃ e₃ in
      let (_, g₅, fifth, e₅) = >>=-ends_ok _ _ g₄ e₄ in
      let (_, g₆, sixth, last) = >>=-ends_ok _ _ g₅ e₅ in
      let at₁ = Moves-ends_ok SameRules _ g g₁ _ (record_correction-SameRules _) first in
      let at₂ = Moves-ends_ok SameRules _ g₁ g₂ _ (append_verdict-SameRules _ _ _) second in
      let (entry, j, _, _, _, at₃) = record_history-ok host action operator_allows _ g₂ g₃ third in
      let made = compile_approval_rule-ok action _ _ compiled g₃ g₄ fourth in
      let (valid, at₅) = put_in_store-ok compiled.0 g₄ g₅ fifth in
      let at₆ = Moves-ends_ok SameRules _ g₅ g₆ _ (audit_rule-SameRules compiled.0) sixth in
      let rules_before : g₄.rules ≡ g.rules = made.same_rules ∙ ap (λ s. s.rules) at₃ ∙ at₂ ∙ at₁ in
      record {
        rule = compiled.0;
        correction_id = correction.id;
        id = made.id;
        eval_case_id = made.eval_case_id;
        created_at = made.created_at;
        answered = sym (ap (λ p. rules_of p.0) last);
        is_rule = made.is_rule;
        is_valid = valid;
        in_store =
            sym (ap (λ p. p.1.rules) last)
            ∙ at₆
            ∙ at₅
            ∙ ap (λ rs. rs ++ compiled.0 ∷ []) rules_before;
      }

  -- Where a valid queued action is forwarded unedited and the verdict ends well, and the store's
  -- rules are valid and none of them fits the action, the engine, in scope and outside shadow
  -- mode, decides the action by the one rule that the verdict compiled: the decision allows it
  -- and names that rule as its source.
  pub operator_verdict-teaches :
      (queue_id reason : String) (item : QueuedIntercept) (answer : OperatorVerdictResult)
      (g h : GatewayState) (mode : PolicyMode) (scope : Option ProxyScope)
      → (remove queue_id g.queue).0 ≡ some item
      → operator_verdict host (to_forward queue_id reason none) g ≡ (ok answer, h)
      → All (λ r. is_valid_rule host.zod r ≡ true) g.rules
      → All (λ r. fits item.action r ≡ false) g.rules
      → is_valid_action host.zod item.action ≡ true
      → is_shadow mode ≡ false
      → (evaluate_scope item.action scope).in_scope ≡ true
      → (rule : ActionPolicyRule) × (answer.compiled_rules ≡ rule ∷ [])
        × (decide_from_store host.zod host.locale_compare item.action
              (ok (active_rules host.locale_compare h.rules))
              (record { mode = mode; scope = scope })
            ≡ decision_from_rule rule mode)
        × ((decision_from_rule rule mode).allowed ≡ true)
        × ((decision_from_rule rule mode).source_rule_id ≡ some rule.id)
  unfolding operator_verdict ◌>>=◌ take_from_queue stored_rules
  operator_verdict-teaches queue_id reason item answer g h mode scope found e all_valid misfits
        valid live governed =
      let taken : _ = rw found at e in
      let done =
        approve_action-IsApproved (to_forward queue_id reason none) item.action none answer
          (take_from_queue queue_id g).1 h taken in
      let (n, governs) =
        approval_rule-Governs item.action done.correction_id done.id done.eval_case_id
          done.created_at in
      let (allows, names) =
        allow-decides done.rule mode (ap (λ r. r.effect.verdict) done.is_rule) live in
      (
        done.rule,
        done.answered,
        rw done.in_store (
            decides host.locale_compare item.action g.rules done.rule n host.zod mode scope valid
              live governed all_valid done.is_valid misfits (rw done.is_rule governs)),
        allows,
        names,
      )
