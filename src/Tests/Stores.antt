-- ===== src/Tests/Stores.antt =====
-- packages/integrations/policy-store and the enforcement of packages/governance on concrete stores.
use liminal_engine.Prelude.{ℕ, String, ◌≡◌, refl, none, some, List, [], ◌∷◌, ok}
use liminal_engine.Contracts.Audit.{DealStatus}
use liminal_engine.Contracts.PolicyRule.{ActionPolicyRule}
use liminal_engine.Contracts.Parsing.{
  parse_rule, is_valid_rule, is_valid_scope, is_valid_effect, is_valid_condition,
}
use liminal_engine.Policy.Store.{
  RulesFile, missing, array, put_rule, update_rule, read_rules, file_put_rule, file_update_rule,
}
use liminal_engine.Policy.Store.Refinement.{
  Agrees, Simulates, missing-Agrees, put_rule-Simulates, update_rule-Simulates,
}
use liminal_engine.Governance.Enforcement.{
  Calls, Stores, ApproveAndEnforceInput, ApproveAndEnforceResult, enforce_correction,
  build_enforcement, build_gate, deciding_role, persist, approve_and_enforce,
}
use liminal_engine.Governance.Enforcement.Gated.{
  IsGated, IsEnforced, approve_and_enforce-IsGated, approve_and_enforce-IsEnforced,
}
use liminal_engine.Tests.Fixtures.{zod, collate, deny_merge, allow_reviewed}

abbrev file_name : String
file_name = "policy-rules.json"

abbrev stored_rules : List ActionPolicyRule
stored_rules = allow_reviewed ∷ deny_merge ∷ []

abbrev stored_file : RulesFile
stored_file = array stored_rules

parsed :
    (read_rules zod collate file_name stored_file ≡ ok stored_rules)
    × (parse_rule zod allow_reviewed ≡ ok allow_reviewed)
    × (parse_rule zod deny_merge ≡ ok deny_merge)
unfolding read_rules parse_rule is_valid_rule is_valid_scope is_valid_effect is_valid_condition
parsed = (refl, refl, refl)

stored-Agrees : Agrees zod collate file_name stored_rules stored_file
stored-Agrees = record {
  stored = stored_rules;
  reads = parsed.0;
  parses = (parsed.1, (parsed.2, tt));
  unique = (refl, (refl, tt));
  same = λ id. refl;
}

put_rule-Simulates_example :
    Simulates zod collate file_name
      (put_rule zod deny_merge [])
      (file_put_rule zod collate file_name deny_merge missing)
put_rule-Simulates_example =
    put_rule-Simulates zod collate file_name deny_merge [] missing
      (missing-Agrees zod collate file_name)

update_rule-Simulates_example :
    Simulates zod collate file_name
      (update_rule zod deny_merge stored_rules)
      (file_update_rule zod collate file_name deny_merge stored_file)
update_rule-Simulates_example =
    update_rule-Simulates zod collate file_name deny_merge stored_rules stored_file stored-Agrees

abbrev id_at : ℕ → String
id_at n = "ag_acme"

abbrev time_at : ℕ → String
time_at n = "2026-06-27T10:05:00.000Z"

abbrev correction : ApproveAndEnforceInput
correction = record {
  case_id = "gc_acme_eu";
  deal_id = "deal_acme";
  current_status = DealStatus.on_track;
  gated_action = "Send customer-facing status update to Acme";
}

abbrev start : Calls
start = record { ids = 0; times = 0 }

abbrev nothing : Stores
nothing = record { gates = []; audits = [] }

approve_and_enforce-IsGated_example :
    IsGated "Send customer-facing status update to Acme" nothing
      (approve_and_enforce id_at time_at none (some "the sink is down") correction start nothing).1
approve_and_enforce-IsGated_example =
    approve_and_enforce-IsGated id_at time_at none (some "the sink is down") correction start
      nothing

-- What the enforcement of the correction returns.
abbrev enforced : ApproveAndEnforceResult
enforced = record {
  status = DealStatus.at_risk;
  enforcement = record {
    id = "ag_acme";
    case_id = "gc_acme_eu";
    deal_id = "deal_acme";
    from_status = DealStatus.on_track;
    to_status = DealStatus.at_risk;
    actor = deciding_role;
    enforced_at = "2026-06-27T10:05:00.000Z";
    action_type = none;
    target_system = none;
    payload = none;
  };
  audit = record {
    id = "ag_acme";
    case_id = "gc_acme_eu";
    deal_id = "deal_acme";
    action = "correction-enforced";
    deciding_actor = deciding_role;
    previous_status = DealStatus.on_track;
    new_status = DealStatus.at_risk;
    recorded_at = "2026-06-27T10:05:00.000Z";
    before_state = none;
    after_state = none;
    evidence_ids = none;
    action_ids = none;
    eval_ids = none;
    affected_systems = none;
    prev_hash = none;
  };
  gate = build_gate id_at time_at "Send customer-facing status update to Acme" "gc_acme_eu" 2;
}

enforces : (approve_and_enforce id_at time_at none none correction start nothing).0 ≡ ok enforced
unfolding approve_and_enforce build_enforcement enforce_correction persist
enforces = refl

approve_and_enforce-IsEnforced_example :
    (correction.current_status ≡ DealStatus.on_track)
    × IsEnforced "Send customer-facing status update to Acme" nothing enforced
        (approve_and_enforce id_at time_at none none correction start nothing).1
approve_and_enforce-IsEnforced_example =
    approve_and_enforce-IsEnforced id_at time_at none none correction start nothing enforced
      enforces
