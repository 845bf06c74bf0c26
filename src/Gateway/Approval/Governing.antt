-- ===== src/Gateway/Approval/Governing.antt =====
-- The rule that `approvalScopeFor` of packages/integrations/intercept-gateway/src/gateway.ts scopes
-- fits the action that it was made from.
use liminal_engine.Prelude.{
  ℕ, ◌+◌, eqb, String, codes, ◌==◌, eq_refl, ◌≡◌, refl, sym, ap₂, true, false, ◌&&◌, Option, none,
  some, List, [], ◌∷◌, ◌++◌, all, All, Bool-cases, Option-cases, inl, inr, arith,
}
use liminal_engine.Prelude.Int.{ℤ, pos, negsuc, le_ℤ}
use liminal_engine.Prelude.Grown.{append_nil}
use liminal_engine.Prelude.Words.{is_digit}
use liminal_engine.Contracts.Value.{Value, read_path}
use liminal_engine.Contracts.Action.{InterceptedAction}
use liminal_engine.Policy.Wildcard.{
  is_dot, wildcard_match, Matches, done, literal, star, wildcard_match_iff,
}
use liminal_engine.Policy.Conditions.{read_condition_field, condition_matches}
use liminal_engine.Policy.Engine.{
  match_specificity, name_specificity, target_specificity, condition_specificity,
}
use liminal_engine.Policy.Engine.Selection.{Governs}
use liminal_engine.Governance.Correction.Wording.{strip}
use liminal_engine.Governance.Correction.Scopes.{is_number_of, target_pattern_for, optional_pattern}
use liminal_engine.Gateway.Approval.{at_least_as_approved, approval_scope_for, approval_rule}

-- A text fits itself as a pattern, stars and all.
Matches-self : (s : List ℕ) → Matches s s
Matches-self [] = done
Matches-self (c ∷ s) = elim (Bool-cases (eqb c b'*')) [
  | inl e ↦ star (c ∷ []) s (ground arith) (ground arith, tt) refl (Matches-self s)
  | inr e ↦ literal (ground arith) refl (Matches-self s)
]

strip-eq : (ps s rest : List ℕ) → strip ps s ≡ some rest → s ≡ ps ++ rest
strip-eq [] s rest h = cc
strip-eq (p ∷ ps) [] rest h = cc
strip-eq (p ∷ ps) (c ∷ s) rest h = elim (Bool-cases (eqb c p)) [
  | inl e ↦
      let same : c ≡ p = ground arith in ap₂ (λ x xs. x ∷ xs) same (strip-eq ps s rest (rw e at h))
  | inr e ↦ let bad : none ≡ some rest = rw e at h in cc
]

digits-dots : (s : List ℕ) → all is_digit s ≡ true → All (λ c. is_dot c ≡ true) s
digits-dots [] h = tt
digits-dots (c ∷ s) h = (ground arith, digits-dots s (ground arith))

number-digits : (s : List ℕ) → is_number_of (some s) ≡ true → all is_digit s ≡ true
number-digits [] h = cc
number-digits (c ∷ s) h = h

-- The pattern of a pull request fits each of them.
pull_request-Matches :
    (s : List ℕ) → is_number_of (strip (codes "PR#") s) ≡ true → Matches (codes "PR#*") s
pull_request-Matches s h = elim (Option-cases (strip (codes "PR#") s)) [
  | inl e ↦ let bad : false ≡ true = rw e at h in cc
  | inr (rest, e) ↦
      let number : is_number_of (some rest) ≡ true = rw e at h in
      let dots = digits-dots rest (number-digits rest number) in
      rw (strip-eq (codes "PR#") s rest e) (
        literal (omega arith) refl (
          literal (omega arith) refl
            (literal (omega arith) refl (star rest [] refl dots (sym (append_nil rest)) done))))
]

target_pattern_for-matches :
    (target : String) → wildcard_match (target_pattern_for target) target ≡ true
unfolding target_pattern_for
target_pattern_for-matches target =
    elim (Bool-cases (is_number_of (strip (codes "PR#") (codes target)))) [
      | inr e ↦ rw e ((wildcard_match_iff target target).1 (Matches-self (codes target)))
      | inl e ↦ rw e ((wildcard_match_iff "PR#*" target).1 (pull_request-Matches (codes target) e))
    ]

le_ℤ-refl : (n : ℤ) → le_ℤ n n ≡ true
le_ℤ-refl (pos n) = ground arith
le_ℤ-refl (negsuc n) = ground arith

name_specificity-own :
    (name : String) (weight : ℕ) → (n : ℕ) × (name_specificity name name weight ≡ some n)
name_specificity-own name weight = elim (Bool-cases (name == "*")) [
  | inl e ↦ (0, rw e refl)
  | inr e ↦ (weight, rw (e, eq_refl name) refl)
]

target_specificity-own :
    (target : Option String)
    → (n : ℕ) × (target_specificity (optional_pattern target) target ≡ some n)
target_specificity-own none = (0, refl)
target_specificity-own (some t) = (4, rw (target_pattern_for-matches t) refl)

reviews-hold :
    (action : InterceptedAction) (v : Value)
    → read_path (Value.object action.args) ("reviews" ∷ "approved" ∷ []) ≡ v
    → (n : ℕ) × (condition_specificity action (at_least_as_approved v) ≡ some n)
unfolding condition_matches read_condition_field
reviews-hold action (Value.number m) h = (8, rw (h, le_ℤ-refl m) refl)
reviews-hold action Value.undefined h = (0, refl)
reviews-hold action Value.null h = (0, refl)
reviews-hold action (Value.boolean b) h = (0, refl)
reviews-hold action (Value.string s) h = (0, refl)
reviews-hold action (Value.array items) h = (0, refl)
reviews-hold action (Value.object fields) h = (0, refl)

condition_specificity-own :
    (action : InterceptedAction)
    → (n : ℕ) × (condition_specificity action (approval_scope_for action).condition ≡ some n)
unfolding approval_scope_for
condition_specificity-own action =
    elim (Bool-cases (action.tool == "gh" && action.action == "pr-merge")) [
      | inr e ↦ (0, rw e refl)
      | inl e ↦
          let (n, holds) =
            reviews-hold action (read_path (Value.object action.args) ("reviews" ∷ "approved" ∷ []))
              refl in
          (n, rw e holds)
    ]

-- The rule that an approval of an action compiles to is active and matches that action: its tool,
-- action, target pattern and condition on the approving reviews, whatever characters they hold.
pub approval_rule-Governs :
    (action : InterceptedAction) (correction_id id eval_case_id at : String)
    → (n : ℕ) × Governs action (approval_rule action correction_id id eval_case_id at) n
unfolding approval_scope_for match_specificity
approval_rule-Governs action correction_id id eval_case_id at =
    let (a, tool) = name_specificity-own action.tool 1 in
    let (b, name) = name_specificity-own action.action 2 in
    let (c, target) = target_specificity-own action.target in
    let (d, condition) = condition_specificity-own action in
    (a + b + c + d, (refl, rw (tool, name, target, condition) refl))
