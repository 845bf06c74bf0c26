-- ===== src/Policy/Store.antt =====
-- packages/integrations/policy-store/src/index.ts: the policy rules in memory and in a file. A `Map`
-- whose keys are the rules' ids is the list of its rules in the order of insertion. The file is the
-- value that its JSON text stands for; reading and writing it are not modelled further.
pub mod Laws
pub mod Refinement
use liminal_engine.Prelude.{
  String, template, ◌==◌, Ordering, Bool, true, false, not, Option, none, some, List, [], ◌∷◌, ◌++◌,
  filter, find, any, Result, ok, err, ◌>>=◌, ◌>>◌, guard, traverse, if◌then◌else◌,
}
use liminal_engine.Prelude.Sorting.{orelse, sort}
use liminal_engine.Contracts.PolicyRule.{ActionPolicyRule, RuleStatus}
use liminal_engine.Contracts.Zod.{Zod}
use liminal_engine.Contracts.Parsing.{parse_rule}

abbrev pub has_rule_id : String → ActionPolicyRule → Bool
has_rule_id id r = r.id == id

abbrev pub is_active_rule : ActionPolicyRule → Bool
is_active_rule r = elim r.status [ RuleStatus.active ↦ true | _ ↦ false ]

-- `a.createdAt.localeCompare(b.createdAt) || a.id.localeCompare(b.id)`
abbrev pub compare_rules :
    (String → String → Ordering) → ActionPolicyRule → ActionPolicyRule → Ordering
compare_rules locale_compare a b =
    orelse (locale_compare a.created_at b.created_at) (locale_compare a.id b.id)

-- Assigning the rule where its id stands.
unfoldable pub replace : ActionPolicyRule → List ActionPolicyRule → List ActionPolicyRule
replace rule [] = []
replace rule (r ∷ rules) =
    let rest = replace rule rules in if has_rule_id rule.id r then rule ∷ rules else r ∷ rest

abbrev already_exists : String → String
already_exists id = template ("policy rule " ∷ id ∷ " already exists" ∷ [])

abbrev does_not_exist : String → String
does_not_exist id = template ("policy rule " ∷ id ∷ " does not exist" ∷ [])

-- `byId`, in memory and on the rules read from the file.
abbrev pub by_id : String → List ActionPolicyRule → Option ActionPolicyRule
by_id id rules = find (has_rule_id id) rules

-- `FilePolicyStore`: what `policy-rules.json` holds.
pub data RulesFile : Type 0 where
  missing : RulesFile
  not_an_array : RulesFile
  array : List ActionPolicyRule → RulesFile

module _ (locale_compare : String → String → Ordering) where
  -- `InMemoryPolicyStore.allRules` and `.activeRules`
  unfoldable pub all_rules : List ActionPolicyRule → List ActionPolicyRule
  all_rules rules = sort (compare_rules locale_compare) rules

  unfoldable pub active_rules : List ActionPolicyRule → List ActionPolicyRule
  unfolding all_rules
  active_rules rules = filter is_active_rule (all_rules rules)

module _ (zod : Zod) where
  -- `InMemoryPolicyStore.putRule`
  unfoldable pub put_rule :
      ActionPolicyRule → List ActionPolicyRule → Result (List ActionPolicyRule)
  put_rule rule rules = do
    parsed ← parse_rule zod rule
    guard (not (any (has_rule_id parsed.id) rules)) (already_exists parsed.id)
    ok (rules ++ parsed ∷ [])

  -- `InMemoryPolicyStore.updateRule`
  unfoldable pub update_rule :
      ActionPolicyRule → List ActionPolicyRule → Result (List ActionPolicyRule)
  update_rule rule rules = do
    parsed ← parse_rule zod rule
    guard (any (has_rule_id parsed.id) rules) (does_not_exist parsed.id)
    ok (replace parsed rules)

  module _ (locale_compare : String → String → Ordering) (file_name : String) where
    unfoldable pub read_rules : RulesFile → Result (List ActionPolicyRule)
    read_rules missing = ok []
    read_rules not_an_array =
        err (template (file_name ∷ " must contain an array of policy rules" ∷ []))
    read_rules (array rules) = traverse (parse_rule zod) rules

    -- `sortRules`
    unfoldable pub sort_rules : List ActionPolicyRule → Result (List ActionPolicyRule)
    sort_rules rules = do
      parsed ← traverse (parse_rule zod) rules
      ok (sort (compare_rules locale_compare) parsed)

    unfoldable pub write_rules : List ActionPolicyRule → Result RulesFile
    write_rules rules = do sorted ← sort_rules rules; ok (array sorted)

    unfoldable pub file_put_rule : ActionPolicyRule → RulesFile → Result RulesFile
    file_put_rule rule file = do
      parsed ← parse_rule zod rule
      rules ← read_rules file
      guard (not (any (has_rule_id parsed.id) rules)) (already_exists parsed.id)
      write_rules (rules ++ parsed ∷ [])

    unfoldable pub file_update_rule : ActionPolicyRule → RulesFile → Result RulesFile
    file_update_rule rule file = do
      parsed ← parse_rule zod rule
      rules ← read_rules file
      guard (any (has_rule_id parsed.id) rules) (does_not_exist parsed.id)
      write_rules (replace parsed rules)

    unfoldable pub file_by_id : String → RulesFile → Result (Option ActionPolicyRule)
    file_by_id id file = do rules ← read_rules file; ok (by_id id rules)

    unfoldable pub file_all_rules : RulesFile → Result (List ActionPolicyRule)
    file_all_rules file = do rules ← read_rules file; sort_rules rules

    unfoldable pub file_active_rules : RulesFile → Result (List ActionPolicyRule)
    file_active_rules file = do rules ← file_all_rules file; ok (filter is_active_rule rules)
