-- ===== src/Tests/Operator.antt =====
-- Narrowing a rule, queueing an action and counting escalations on the fixtures.
use liminal_engine.Prelude.{String, ◌≡◌, refl, some, none, [], ◌∷◌, ok}
use liminal_engine.Prelude.Int.{pos}
use liminal_engine.Contracts.PolicyRule.{Verdict, RuleStatus}
use liminal_engine.Contracts.Parsing.{
  parse_action, is_valid_action, parse_rule, is_valid_rule, is_valid_scope, is_valid_effect,
  is_valid_condition,
}
use liminal_engine.Policy.Decision.{DecisionSource, PolicyDecision, bare_decision}
use liminal_engine.Policy.Engine.{best_matching_rule}
use liminal_engine.Policy.Narrow.{
  NarrowedPolicy, reviews_from, combine_conditions, narrow_policy, narrow_policy-governs_nothing,
}
use liminal_engine.Policy.Queue.{QueuedIntercept, enqueue}
use liminal_engine.Tests.Fixtures.{zod, collate, merge, deny_merge}

abbrev exempt : NarrowedPolicy
exempt = record {
  narrowed = record deny_merge {
    id = "pr_2";
    version = 2;
    scope = record deny_merge.scope { condition = some (reviews_from (pos 2)) };
    status = RuleStatus.narrowed;
    supersedes_id = some "pr_1";
    created_at = "2026-06-27T11:00:00.000Z";
  };
  retired = record deny_merge { status = RuleStatus.retired };
}

narrows :
    narrow_policy zod "pr_2" "2026-06-27T11:00:00.000Z" deny_merge (reviews_from (pos 2))
    ≡ ok exempt
unfolding narrow_policy combine_conditions parse_rule is_valid_rule is_valid_scope is_valid_effect
    is_valid_condition
narrows = refl

narrow_policy-governs_nothing_example :
    best_matching_rule collate merge (exempt.narrowed ∷ exempt.retired ∷ []) ≡ none
narrow_policy-governs_nothing_example =
    narrow_policy-governs_nothing zod collate "pr_2" "2026-06-27T11:00:00.000Z" deny_merge
      (reviews_from (pos 2)) exempt merge narrows

abbrev waiting : String → QueuedIntercept
waiting id = record { id = id; action = merge; enqueued_at = "2026-06-27T10:00:00.000Z" }

queues : enqueue zod (waiting "q_2") (waiting "q_1" ∷ []) ≡ ok (waiting "q_1" ∷ waiting "q_2" ∷ [])
unfolding enqueue parse_action is_valid_action
queues = refl

abbrev asked : PolicyDecision
asked = bare_decision Verdict.ask [] [] DecisionSource.default_deny

abbrev allowed : PolicyDecision
allowed = bare_decision Verdict.allow [] [] DecisionSource.policy
