-- ===== src/Tests/Fixtures.antt =====
-- Concrete values that the tests share.
use liminal_engine.Prelude.{
  String, codes, length, compare, Ordering, true, Option, none, some, List, [], ◌∷◌, eqb,
  if◌then◌else◌, Result, ok, err, Bool, false, ◌≡◌, refl,
}
use liminal_engine.Prelude.Int.{pos}
use liminal_engine.Prelude.Sorting.{IsConsistent, compare-IsConsistent}
use liminal_engine.Contracts.Zod.{Zod}
use liminal_engine.Contracts.Value.{Value, Fields}
use liminal_engine.Contracts.Action.{InterceptedAction}
use liminal_engine.Contracts.Audit.{DealStatus, AuditEvent}
use liminal_engine.Contracts.PolicyRule.{
  Verdict, Condition, ConditionField, ConditionOp, ConditionValue, RuleStatus,
  EnforcementActionType, ActionPolicyRule,
}
use liminal_engine.Policy.Decision.{PolicyMode}
use liminal_engine.Governance.Correction.Phrases.{Casing}
use liminal_engine.Governance.Journal.{Deps}
use liminal_engine.Governance.PolicyAudit.{Deciding}
use liminal_engine.Gateway.State.{Host, GatewayState}

abbrev pub zod : Zod
zod = record {
  is_datetime = λ s. true;
  action_message = λ a. "the action is refused";
  rule_message = λ r. "the rule is refused";
  audit_message = λ e. "the event is refused";
  correction_message = λ c. "the correction is refused";
  eval_case_message = λ c. "the case is refused";
  enforcement_message = λ a. "the enforcement is refused";
  requirement_issues = λ r. "the requirement is refused";
}

-- A collation: by length.
abbrev pub collate : String → String → Ordering
collate s t = compare (length (codes s)) (length (codes t))

pub collate-IsConsistent : IsConsistent collate
collate-IsConsistent = compare-IsConsistent (λ s. length (codes s))

abbrev pub merge : InterceptedAction
merge = record {
  id = "ia_1";
  tool = "github";
  action = "merge";
  target = some "acme/main";
  args =
      Fields.field "reviews"
        (Value.object (Fields.field "approved" (Value.number (pos 2)) Fields.empty)) Fields.empty;
  agent_id = none;
  session_id = none;
  goal_id = none;
  lane = none;
  requested_at = "2026-06-27T10:00:00.000Z";
}

abbrev pub rule :
    String
    → Option String
    → Option Condition
    → Verdict
    → List String
    → List String
    → ActionPolicyRule
rule id target condition verdict reasons required = record {
  id = id;
  version = 1;
  from_correction_id = "corr_1";
  eval_case_id = "eval_1";
  scope = record {
    tool = "github";
    action = "merge";
    target_pattern = target;
    condition = condition;
  };
  effect = record {
    verdict = verdict;
    action_type = EnforcementActionType.block_agent_action;
    reasons = reasons;
    required_before = required;
  };
  status = RuleStatus.active;
  supersedes_id = none;
  created_at = "2026-06-27T09:00:00.000Z";
}

-- Merging is denied, and allowed on acme/* with two approving reviews.
abbrev pub deny_merge : ActionPolicyRule
deny_merge = rule "pr_1" none none Verdict.deny ("unreviewed" ∷ []) ("review" ∷ [])

abbrev pub allow_reviewed : ActionPolicyRule
allow_reviewed =
    rule "pr_22" (some "acme/*")
      (some (record {
        field = ConditionField.reviews_approved;
        op = ConditionOp.ge;
        value = ConditionValue.number (pos 2);
      }))
      Verdict.allow [] []

abbrev pub learned_rules : List ActionPolicyRule
learned_rules = deny_merge ∷ allow_reviewed ∷ []

abbrev pub opened : AuditEvent
opened = record {
  id = "ae_1";
  case_id = "gc_acme";
  deal_id = "deal_acme";
  action = "case.opened";
  deciding_actor = "VP Ops";
  previous_status = DealStatus.on_track;
  new_status = DealStatus.on_track;
  recorded_at = "2026-06-27T10:00:00.000Z";
  before_state = none;
  after_state = some (Fields.field "status" (Value.string "open") Fields.empty);
  evidence_ids = none;
  action_ids = none;
  eval_ids = none;
  affected_systems = none;
  prev_hash = some "genesis";
}

abbrev pub casing : Casing
casing = record { to_lower_case = λ s. s; to_upper_case = λ s. s }

-- The ids and the time that the run is given.
abbrev pub deps : Deps
deps = record {
  id_at = λ n. if eqb n 0 then "id_0" else if eqb n 1 then "id_1" else "id_2";
  time_at = λ n. "2026-06-27T12:00:00.000Z";
}

abbrev pub who : Deciding
who = record { case_id = "gc_acme"; deal_id = "deal_acme"; deciding_actor = "VP Ops" }

abbrev pub host : Host
host = record { zod = zod; casing = casing; deps = deps; locale_compare = collate; who = who }

abbrev pub start : List ActionPolicyRule → GatewayState
start rules = record {
  rules = rules;
  queue = [];
  history = [];
  journal = record { ledger = []; calls = record { ids = 0; times = 0 } };
  mode = PolicyMode.intercept;
  scope = none;
  match_replace_rules = [];
}

-- The value of a run that ends well.
abbrev pub got : {A : Type 0} → A → Result A → A
got other (ok a) = a
got other (err message) = other

abbrev pub is_ok : {A : Type 0} → Result A → Bool
is_ok (ok a) = true
is_ok (err message) = false

-- Where a run ends well, what it gives.
pub ends_ok :
    {A S : Type 0} (other : A) (r : Result A × S) → is_ok r.0 ≡ true → r ≡ (ok (got other r.0), r.1)
ends_ok other (ok a, s) h = refl
ends_ok other (err message, s) h = cc

abbrev pub waiting : GatewayState
waiting = record (start []) {
  queue = record { id = "q_1"; action = merge; enqueued_at = "2026-06-27T10:00:00.000Z" } ∷ [];
}
