-- ===== src/Policy/Store/Refinement.antt =====
-- The file store of packages/integrations/policy-store/src/index.ts against the one in memory.
use liminal_engine.Prelude.{
  String, ◌==◌, Ordering, ◌≡◌, refl, sym, ap, subst, ◌∙◌, true, false, none, some, List, [], ◌∷◌,
  ◌++◌, any, is_some, Result, ok, err, traverse, if◌then◌else◌, All, All-append, Bool-cases,
  Result-cases, inl, inr,
}
use liminal_engine.Prelude.Sorting.{sort, All-sort}
use liminal_engine.Contracts.PolicyRule.{ActionPolicyRule}
use liminal_engine.Contracts.Zod.{Zod}
use liminal_engine.Contracts.Parsing.{parse_rule, parse_rule-eq}
use liminal_engine.Policy.Store.{
  has_rule_id, compare_rules, replace, by_id, put_rule, update_rule, RulesFile, missing, read_rules,
  sort_rules, write_rules, file_put_rule, file_update_rule, file_by_id,
}
use liminal_engine.Policy.Store.Laws.{
  Unique, any-by_id, none_of_any, by_id-append, by_id-replace, Unique-append, Unique-replace,
  by_id-sort, Unique-sort,
}

module _ (zod : Zod) (locale_compare : String → String → Ordering) (file_name : String) where
  abbrev Parses : ActionPolicyRule → Type 0
  Parses r = parse_rule zod r ≡ ok r

  -- The file reads as valid rules with distinct ids, and each id names the same rule in memory.
  pub record Agrees (rules : List ActionPolicyRule) (file : RulesFile) : Type 0 where
    pub stored : List ActionPolicyRule
    pub reads : read_rules zod locale_compare file_name file ≡ ok stored
    pub parses : All Parses stored
    pub unique : Unique stored
    pub same : (id : String) → by_id id stored ≡ by_id id rules

  -- The two stores fail with the same message, or succeed in states that agree.
  pub data Simulates : Result (List ActionPolicyRule) → Result RulesFile → Type 0 where
    both_ok :
        {rules : List ActionPolicyRule} {file : RulesFile}
        → Agrees rules file
        → Simulates (ok rules) (ok file)
    both_err : {e : String} → Simulates (err e) (err e)

  traverse_of_All :
      (rules : List ActionPolicyRule)
      → All Parses rules
      → traverse (parse_rule zod) rules ≡ ok rules
  traverse_of_All [] h = refl
  traverse_of_All (r ∷ rules) (p, h) = rw (p, traverse_of_All rules h) refl

  All-replace :
      (r : ActionPolicyRule) (rules : List ActionPolicyRule)
      → Parses r
      → All Parses rules
      → All Parses (replace r rules)
  unfolding replace
  All-replace r [] p h = tt
  All-replace r (q ∷ rules) p (s, h) = elim (Bool-cases (q.id == r.id)) [
    | inl e ↦ rw e (p, h)
    | inr e ↦ rw e (s, All-replace r rules p h)
  ]

  -- Writing rules makes a file that agrees with a state in which each id names the same rule.
  write-Simulates :
      (next rules : List ActionPolicyRule)
      → All Parses next
      → Unique next
      → ((id : String) → by_id id next ≡ by_id id rules)
      → Simulates (ok rules) (write_rules zod locale_compare file_name next)
  unfolding write_rules sort_rules read_rules
  write-Simulates next rules p u same =
      let cmp : ActionPolicyRule → ActionPolicyRule → Ordering = compare_rules locale_compare in
      rw (traverse_of_All next p) (
        both_ok (record {
          stored = sort cmp next;
          reads = rw (traverse_of_All (sort cmp next) (All-sort Parses cmp next p)) refl;
          parses = All-sort Parses cmp next p;
          unique = Unique-sort cmp next u;
          same = λ id. by_id-sort cmp id next u ∙ same id;
        }))

  Parses-of_eq : (r parsed : ActionPolicyRule) → parse_rule zod r ≡ ok parsed → Parses parsed
  Parses-of_eq r parsed p =
      subst (λ x. parse_rule zod x ≡ ok parsed) (parse_rule-eq zod r parsed p) p

  module _ (rule : ActionPolicyRule) (rules : List ActionPolicyRule) (file : RulesFile)
      (agrees : Agrees rules file) where
    same_any : (id : String) → any (has_rule_id id) agrees.stored ≡ any (has_rule_id id) rules
    same_any id =
        any-by_id id agrees.stored ∙ ap is_some (agrees.same id) ∙ sym (any-by_id id rules)

    added :
        (parsed : ActionPolicyRule)
        → Parses parsed
        → any (has_rule_id parsed.id) rules ≡ false
        → Simulates
            (ok (rules ++ parsed ∷ []))
            (write_rules zod locale_compare file_name (agrees.stored ++ parsed ∷ []))
    added parsed p free =
        let fresh : by_id parsed.id rules ≡ none = none_of_any parsed.id rules free in
        let fresh_too : by_id parsed.id agrees.stored ≡ none = agrees.same parsed.id ∙ fresh in
        write-Simulates (agrees.stored ++ parsed ∷ []) (rules ++ parsed ∷ [])
          (All-append Parses agrees.stored (parsed ∷ []) agrees.parses (p, tt))
          (Unique-append agrees.stored parsed fresh_too agrees.unique)
          (λ id.
            by_id-append id agrees.stored parsed fresh_too
            ∙ ap (λ o. if has_rule_id id parsed then some parsed else o) (agrees.same id)
            ∙ sym (by_id-append id rules parsed fresh))

    replaced :
        (parsed : ActionPolicyRule)
        → Parses parsed
        → any (has_rule_id parsed.id) rules ≡ true
        → Simulates
            (ok (replace parsed rules))
            (write_rules zod locale_compare file_name (replace parsed agrees.stored))
    replaced parsed p taken =
        let taken_too : any (has_rule_id parsed.id) agrees.stored ≡ true =
          same_any parsed.id ∙ taken in
        write-Simulates (replace parsed agrees.stored) (replace parsed rules)
          (All-replace parsed agrees.stored p agrees.parses)
          (Unique-replace agrees.stored parsed taken_too agrees.unique)
          (λ id.
            by_id-replace id agrees.stored parsed taken_too
            ∙ ap (λ o. if has_rule_id id parsed then some parsed else o) (agrees.same id)
            ∙ sym (by_id-replace id rules parsed taken))

    -- From stores that agree, putting a rule into the file fails with the message that it fails
    -- with in memory, or leaves the two stores in agreement.
    pub put_rule-Simulates :
        Simulates (put_rule zod rule rules) (file_put_rule zod locale_compare file_name rule file)
    unfolding put_rule file_put_rule
    put_rule-Simulates = elim (Result-cases (parse_rule zod rule)) [
      | inr (e, failed) ↦ rw failed both_err
      | inl (parsed, p) ↦ elim (Bool-cases (any (has_rule_id parsed.id) rules)) [
        | inl taken ↦ rw (p, agrees.reads, same_any parsed.id, taken) both_err
        | inr free ↦
            rw (p, agrees.reads, same_any parsed.id, free)
              (added parsed (Parses-of_eq rule parsed p) free)
      ]
    ]

    -- From stores that agree, updating a rule in the file fails with the message that it fails with
    -- in memory, or leaves the two stores in agreement.
    pub update_rule-Simulates :
        Simulates
          (update_rule zod rule rules)
          (file_update_rule zod locale_compare file_name rule file)
    unfolding update_rule file_update_rule
    update_rule-Simulates = elim (Result-cases (parse_rule zod rule)) [
      | inr (e, failed) ↦ rw failed both_err
      | inl (parsed, p) ↦ elim (Bool-cases (any (has_rule_id parsed.id) rules)) [
        | inl taken ↦
            rw (p, agrees.reads, same_any parsed.id, taken)
              (replaced parsed (Parses-of_eq rule parsed p) taken)
        | inr free ↦ rw (p, agrees.reads, same_any parsed.id, free) both_err
      ]
    ]

    -- From stores that agree, looking an id up in the file finds what looking it up in memory
    -- finds.
    file_by_id-eq :
        (id : String) → file_by_id zod locale_compare file_name id file ≡ ok (by_id id rules)
    unfolding file_by_id
    file_by_id-eq id = rw (agrees.reads, agrees.same id) refl

  -- A missing file agrees with the empty store.
  pub missing-Agrees : Agrees [] missing
  unfolding read_rules
  missing-Agrees = record { stored = []; reads = refl; parses = tt; unique = tt; same = λ id. refl }
