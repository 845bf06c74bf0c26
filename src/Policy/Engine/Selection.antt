-- ===== src/Policy/Engine/Selection.antt =====
-- `bestMatchingRule` of packages/policy/src/policy-engine.ts: which rule it picks.
use liminal_engine.Prelude.{
  ℕ, ◌≤◌, ◌<◌, Ordering, String, ◌≡◌, refl, subst, ◌⊎◌, inl, inr, true, none, some, List, [], ◌∷◌,
  filter, All, Member, All-mono, holds_of_head?, All-of_head?-none, arith, Bool-cases, Option-cases,
}
use liminal_engine.Prelude.Sorting.{
  le, IsConsistent, compare-IsConsistent, orelse-IsConsistent, reversed-IsConsistent,
  keyed-IsConsistent, All-sort, All-of_sort, head?-sort-AtMost,
}
use liminal_engine.Contracts.Action.{InterceptedAction}
use liminal_engine.Contracts.PolicyRule.{is_active, ActionPolicyRule}
use liminal_engine.Policy.Engine.{
  Candidate, verdict_rank, match_specificity, candidate_of, candidates, compare_candidates,
  best_matching_rule,
}

-- An active rule whose scope fits the action, with the weight of the fit.
abbrev pub Governs : InterceptedAction → ActionPolicyRule → ℕ → Type 0
Governs action rule n = (is_active rule.status ≡ true) × (match_specificity action rule ≡ some n)

-- The rule weighs less, or as much with a verdict that is no stricter.
abbrev pub IsOutranked : ActionPolicyRule → ℕ → Candidate → Type 0
IsOutranked rule n c =
    (n < c.specificity)
    ⊎ ((n ≡ c.specificity) × (verdict_rank rule.effect.verdict ≤ c.verdict_rank))

-- The candidate stands for a governing rule of the list.
pub record IsFrom (action : InterceptedAction) (rules : List ActionPolicyRule) (c : Candidate)
    : Type 0 where
  pub listed : Member c.rule rules
  pub governs : Governs action c.rule c.specificity
  pub ranked : c.verdict_rank ≡ verdict_rank c.rule.effect.verdict

module _ (locale_compare : String → String → Ordering) (lawful : IsConsistent locale_compare) where
  pub compare_candidates-IsConsistent : IsConsistent (compare_candidates locale_compare)
  unfolding compare_candidates
  compare_candidates-IsConsistent =
      orelse-IsConsistent
        (reversed-IsConsistent (compare-IsConsistent (λ (c : Candidate). c.specificity)))
        (orelse-IsConsistent
          (reversed-IsConsistent (compare-IsConsistent (λ (c : Candidate). c.verdict_rank)))
          (orelse-IsConsistent
            (reversed-IsConsistent (compare-IsConsistent (λ (c : Candidate). c.rule.version)))
            (orelse-IsConsistent
              (reversed-IsConsistent
                (keyed-IsConsistent (λ (c : Candidate). c.rule.created_at) lawful))
              (keyed-IsConsistent (λ (c : Candidate). c.rule.id) lawful))))

IsFrom-cons :
    {action : InterceptedAction} {rules : List ActionPolicyRule} (r : ActionPolicyRule)
    (c : Candidate)
    → IsFrom action rules c
    → IsFrom action (r ∷ rules) c
IsFrom-cons r c h = record { listed = inr h.listed; governs = h.governs; ranked = h.ranked }

candidates-IsFrom :
    (action : InterceptedAction) (rules : List ActionPolicyRule)
    → All (IsFrom action rules) (candidates action (filter (λ r. is_active r.status) rules))
candidates-IsFrom action [] = tt
candidates-IsFrom action (r ∷ rules) =
    let later =
      All-mono (IsFrom action rules) (IsFrom action (r ∷ rules))
        (candidates action (filter (λ r. is_active r.status) rules)) (IsFrom-cons r)
        (candidates-IsFrom action rules) in
    elim (Bool-cases (is_active r.status)) [
      | inr idle ↦ rw idle later
      | inl live ↦ rw live (elim (Option-cases (match_specificity action r)) [
        | inl missed ↦ rw missed later
        | inr (n, found) ↦
            rw found (record { listed = inl refl; governs = (live, found); ranked = refl }, later)
      ])
    ]

module _ (Q : Candidate → Type 0) (action : InterceptedAction) where
  abbrev AllCandidates : List ActionPolicyRule → Type 0
  AllCandidates rules = All Q (candidates action (filter (λ r. is_active r.status) rules))

  AllCandidates-tail :
      (r : ActionPolicyRule) (rules : List ActionPolicyRule)
      → AllCandidates (r ∷ rules)
      → AllCandidates rules
  AllCandidates-tail r rules h = elim (Bool-cases (is_active r.status)) [
    | inr idle ↦ rw idle at h
    | inl live ↦
        let k : All Q (candidates action (r ∷ filter (λ s. is_active s.status) rules)) =
          rw live at h in
        elim (Option-cases (match_specificity action r)) [
          | inl missed ↦ rw missed at k
          | inr (n, found) ↦ (rw found at k).1
        ]
  ]

  AllCandidates-head :
      (r : ActionPolicyRule) (rules : List ActionPolicyRule) (n : ℕ)
      → Governs action r n
      → AllCandidates (r ∷ rules)
      → Q (candidate_of r n)
  AllCandidates-head r rules n (live, found) h =
      let k : All Q (candidates action (r ∷ filter (λ s. is_active s.status) rules)) =
        rw live at h in
      (rw found at k).0

  -- What holds of every candidate holds of the candidate of each governing rule.
  candidate_of_Member :
      (rules : List ActionPolicyRule) (rule : ActionPolicyRule) (n : ℕ)
      → Member rule rules
      → Governs action rule n
      → AllCandidates rules
      → Q (candidate_of rule n)
  candidate_of_Member (r ∷ rules) rule n (inl e) g h =
      subst (λ x. Governs action x n → Q (candidate_of x n)) e
        (λ k. AllCandidates-head r rules n k h) g
  candidate_of_Member (r ∷ rules) rule n (inr m) g h =
      candidate_of_Member rules rule n m g (AllCandidates-tail r rules h)
  candidate_of_Member [] rule n m g h = absurd m

module _ (locale_compare : String → String → Ordering) where
  -- The chosen rule is a governing rule of the list.
  pub best_matching_rule-IsFrom :
      (action : InterceptedAction) (rules : List ActionPolicyRule) (c : Candidate)
      → best_matching_rule locale_compare action rules ≡ some c
      → IsFrom action rules c
  unfolding best_matching_rule
  best_matching_rule-IsFrom action rules c h =
      holds_of_head? (IsFrom action rules) _ c h
        (All-sort (IsFrom action rules) _ _ (candidates-IsFrom action rules))

  -- No rule is chosen only if none governs.
  pub best_matching_rule-none :
      (action : InterceptedAction) (rules : List ActionPolicyRule) (rule : ActionPolicyRule) (n : ℕ)
      → best_matching_rule locale_compare action rules ≡ none
      → Member rule rules
      → Governs action rule n
      → ⊥
  unfolding best_matching_rule
  best_matching_rule-none action rules rule n h m g =
      candidate_of_Member (λ c. ⊥) action rules rule n m g
        (All-of_sort (λ c. ⊥) (compare_candidates locale_compare) _
          (All-of_head?-none (λ c. ⊥) _ h))

  -- The rank of a candidate that may stand first.
  rank_of_le :
      (c : Candidate) (rule : ActionPolicyRule) (n : ℕ)
      → le (compare_candidates locale_compare c (candidate_of rule n)) ≡ true
      → IsOutranked rule n c
  unfolding compare_candidates
  rank_of_le c rule n h = grind arith

  -- With a consistent collation, no active rule that fits the action outranks the chosen one: it is
  -- less specific, or as specific with a verdict that is no stricter.
  pub best_matching_rule-IsOutranked :
      (action : InterceptedAction) (rules : List ActionPolicyRule) (c : Candidate)
      (rule : ActionPolicyRule) (n : ℕ)
      → IsConsistent locale_compare
      → best_matching_rule locale_compare action rules ≡ some c
      → Member rule rules
      → Governs action rule n
      → IsOutranked rule n c
  unfolding best_matching_rule
  best_matching_rule-IsOutranked action rules c rule n lawful h m g = rank_of_le c rule n (
      candidate_of_Member (λ d. le (compare_candidates locale_compare c d) ≡ true) action rules rule
        n m g
        (head?-sort-AtMost (compare_candidates locale_compare)
          (compare_candidates-IsConsistent locale_compare lawful) _ c h))
