-- ===== src/Policy/Escalation.antt =====
-- packages/policy/src/escalation-metric.ts: how often the operator was asked. A rate is kept as the
-- pair of the two counts that the source divides, and rates are compared exactly.
use liminal_engine.Prelude.{
  ℕ, suc, ◌+◌, ◌*◌, ltb, ◌≡◌, refl, ap₂, ◌∙◌, Bool, true, false, not, ◌&&◌, Option, none, some,
  List, [], ◌∷◌, length, filter, get_last?, if◌then◌else◌, arith,
}
use liminal_engine.Contracts.PolicyRule.{Verdict, is_ask}
use liminal_engine.Policy.Decision.{PolicyDecision}

pub record EscalationSample : Type 0 where
  pub index : ℕ
  pub total_consequential_actions : ℕ
  pub operator_escalations : ℕ

abbrev pub asks : PolicyDecision → Bool
asks d = is_ask d.verdict

-- The map of `escalationSeries`, from an index and a count on.
unfoldable pub series_from : ℕ → ℕ → List PolicyDecision → List EscalationSample
series_from index count [] = []
series_from index count (d ∷ decisions) =
    let now = if asks d then count + 1 else count in
    record { index = index; total_consequential_actions = index + 1; operator_escalations = now }
    ∷ series_from (index + 1) now decisions

unfoldable pub escalation_series : List PolicyDecision → List EscalationSample
unfolding series_from
escalation_series decisions = series_from 0 0 decisions

-- A rate as its two counts; zero where there is no decision.
abbrev rate_of : Option EscalationSample → ℕ × ℕ
rate_of none = (0, 1)
rate_of (some s) = (s.operator_escalations, s.total_consequential_actions)

unfoldable pub final_escalation_rate : List PolicyDecision → ℕ × ℕ
unfolding escalation_series
final_escalation_rate decisions = rate_of (get_last? (escalation_series decisions))

-- The rate rises from one sample to the next.
abbrev rises : EscalationSample → EscalationSample → Bool
rises a b =
    ltb (a.operator_escalations * b.total_consequential_actions)
      (b.operator_escalations * a.total_consequential_actions)

unfoldable pub is_monotonic_non_increasing : List EscalationSample → Bool
is_monotonic_non_increasing [] = true
is_monotonic_non_increasing (s ∷ []) = true
is_monotonic_non_increasing (s ∷ t ∷ samples) =
    not (rises s t) && is_monotonic_non_increasing (t ∷ samples)

abbrev is_regression : Verdict → Verdict → Bool
is_regression Verdict.deny Verdict.allow = true
is_regression _ _ = false

-- The decisions that allow what was expected to be denied.
unfoldable pub count_safety_regressions : List PolicyDecision → List Verdict → ℕ
count_safety_regressions [] expected = 0
count_safety_regressions (d ∷ decisions) [] = 0
count_safety_regressions (d ∷ decisions) (e ∷ expected) =
    let rest = count_safety_regressions decisions expected in
    if is_regression e d.verdict then suc rest else rest

last-series_from :
    (index count : ℕ) (d : PolicyDecision) (decisions : List PolicyDecision)
    → rate_of (get_last? (series_from index count (d ∷ decisions)))
      ≡ (count + length (filter asks (d ∷ decisions)), index + length (d ∷ decisions))
unfolding series_from
last-series_from index count d [] = ground arith
last-series_from index count d (e ∷ decisions) =
    last-series_from (index + 1) (if asks d then count + 1 else count) e decisions
    ∙ ap₂ (λ a b. (a, b)) (counted (asks d)) (omega arith)
  where
    counted :
        (b : Bool)
        → (if b then count + 1 else count) + length (filter asks (e ∷ decisions))
          ≡ count
            + length (if b then d ∷ filter asks (e ∷ decisions) else filter asks (e ∷ decisions))
    counted true = omega arith
    counted false = refl

-- For at least one decision, the final rate counts the decisions that ask over all decisions.
final_escalation_rate-eq :
    (d : PolicyDecision) (decisions : List PolicyDecision)
    → final_escalation_rate (d ∷ decisions)
      ≡ (length (filter asks (d ∷ decisions)), length (d ∷ decisions))
unfolding final_escalation_rate escalation_series
final_escalation_rate-eq d decisions =
    last-series_from 0 0 d decisions ∙ ap₂ (λ a b. (a, b)) (omega arith) (omega arith)
