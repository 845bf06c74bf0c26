-- ===== src/Governance/Correction/Guarded.antt =====
-- What the compiler of packages/governance/src/compile-correction.ts can produce.
use liminal_engine.Prelude.{
  String, ◌≡◌, refl, sym, ap, subst, ◌∙◌, Bool, true, false, not, Bool-cases, Option, List, [], ◌∷◌,
  All, All-map, Result, ok, err, arith, ◌+◌, Result-cases, inl, inr,
}
use liminal_engine.Prelude.Effect.{◌>>=◌, >>=-ends_ok, for_each, for_each-All, lift}
use liminal_engine.Contracts.Action.{InterceptedAction}
use liminal_engine.Contracts.PolicyRule.{is_allow, RuleStatus, ActionPolicyRule}
use liminal_engine.Contracts.Correction.{CorrectionEvent}
use liminal_engine.Contracts.Zod.{Zod}
use liminal_engine.Contracts.Parsing.{is_valid_rule, parse_rule, parse_rule-eq}
use liminal_engine.Governance.Journal.{Journal, Deps, next_id, now}
use liminal_engine.Governance.Correction.Atoms.{atomic_corrections}
use liminal_engine.Governance.Correction.Phrases.{
  Casing, Template, first_holding, phrase_table, unsupported, template_for,
}
use liminal_engine.Governance.Correction.Compiler.{
  CompiledAtom, CompiledCorrection, compiled_rule, compiled_of, around_rule, compile_atom,
  compile_atoms, compile_correction,
}

-- Nothing, or a template that does not allow.
abbrev restricts : Result Template → Bool
restricts (ok t) = not (is_allow t.verdict)
restricts (err message) = true

restricts-first_holding :
    (options : List (Bool × Result Template)) (last : Result Template)
    → All (λ o. restricts o.1 ≡ true) options
    → restricts last ≡ true
    → restricts (first_holding options last) ≡ true
restricts-first_holding [] last h k = k
restricts-first_holding ((test, r) ∷ options) last (p, h) k = elim (Bool-cases test) [
  | inl e ↦ rw e p
  | inr e ↦ rw e (restricts-first_holding options last h k)
]

template_for-restricts :
    (casing : Casing) (atom : String) (originating : Option InterceptedAction)
    → restricts (template_for casing atom originating) ≡ true
unfolding template_for phrase_table
template_for-restricts casing atom originating =
    restricts-first_holding (phrase_table casing atom originating) (unsupported casing atom)
      (refl, (refl, (refl, (refl, (refl, (refl, (refl, (refl, tt)))))))) refl

template_for-denies :
    (casing : Casing) (atom : String) (originating : Option InterceptedAction) (t : Template)
    → template_for casing atom originating ≡ ok t
    → is_allow t.verdict ≡ false
template_for-denies casing atom originating t h =
    let restricted : restricts (ok t) ≡ true =
      subst (λ r. restricts r ≡ true) h (template_for-restricts casing atom originating) in
    ground arith

-- A rule that was compiled from a correction: proposed, so that the engine does not read it yet, and
-- never one that allows.
pub record IsGuarded (zod : Zod) (correction : CorrectionEvent) (rule : ActionPolicyRule)
    : Type 0 where
  pub proposed : rule.status ≡ RuleStatus.proposed
  pub restricts : is_allow rule.effect.verdict ≡ false
  pub traced : rule.from_correction_id ≡ correction.id
  pub first_version : rule.version ≡ 1
  pub valid : is_valid_rule zod rule ≡ true

thrown_not_ok :
    {message : String} {c : CompiledAtom} {j k : Journal}
    → ¬ (◌≡◌ {A = Result CompiledAtom × Journal} (err message, j) (ok c, k))
thrown_not_ok {message} {c} e = let wrong : err message ≡ ok c = ap (λ p. p.0) e in cc

parse_rule-valid :
    (zod : Zod) (r s : ActionPolicyRule) → parse_rule zod r ≡ ok s → is_valid_rule zod s ≡ true
unfolding parse_rule
parse_rule-valid zod r s h = ground arith

module _ (zod : Zod) (casing : Casing) (deps : Deps) (correction : CorrectionEvent)
    (originating : Option InterceptedAction) where
  around_rule-rule :
      (t : Template) (action_id : String) (rule : ActionPolicyRule) (j k : Journal)
      (c : CompiledAtom)
      → around_rule zod casing deps correction t action_id rule j ≡ (ok c, k)
      → c.rule ≡ rule
  unfolding around_rule
  around_rule-rule t action_id rule j k c e =
      let (graded_at, j₁, _, e₁) = >>=-ends_ok (now deps) _ j e in
      let (eval_case, j₂, _, e₂) = >>=-ends_ok (lift _) _ j₁ e₁ in
      let (enforced_at, j₃, _, e₃) = >>=-ends_ok (now deps) _ j₂ e₂ in
      let (enforcement, j₄, _, last) = >>=-ends_ok (lift _) _ j₃ e₃ in
      let made : ok _ ≡ ok c = ap (λ p. p.0) last in sym (ap (λ r. rule_of rule r) made)
    where
      rule_of : ActionPolicyRule → Result CompiledAtom → ActionPolicyRule
      rule_of other (ok a) = a.rule
      rule_of other (err message) = other

  compile_atom-IsGuarded :
      (atom : String) (j k : Journal) (c : CompiledAtom)
      → compile_atom zod casing deps correction originating atom j ≡ (ok c, k)
      → IsGuarded zod correction c.rule
  unfolding compile_atom ◌>>=◌ next_id now
  compile_atom-IsGuarded atom j k c e = elim (Result-cases (template_for casing atom originating)) [
    | inr (message, thrown) ↦ let bad : _ = rw thrown at e in absurd (thrown_not_ok bad)
    | inl (t, found) ↦
        let id = deps.id_at j.calls.ids in
        let case_id = deps.id_at (j.calls.ids + 1) in
        let made = compiled_rule correction originating t id case_id (deps.time_at j.calls.times) in
        elim (Result-cases (parse_rule zod made)) [
          | inr (message, thrown) ↦
              let bad : _ = rw (found, thrown) at e in absurd (thrown_not_ok bad)
          | inl (rule, parsed) ↦
              let last : _ = rw (found, parsed) at e in
              let same = parse_rule-eq zod made rule parsed in
              let own : c.rule ≡ rule = around_rule-rule t _ rule _ k c last in
              let is_rule : c.rule ≡ made = own ∙ sym same in
              record {
                proposed = ap (λ r. r.status) is_rule;
                restricts =
                    ap (λ r. is_allow r.effect.verdict) is_rule
                    ∙ template_for-denies casing atom originating t found;
                traced = ap (λ r. r.from_correction_id) is_rule;
                first_version = ap (λ r. r.version) is_rule;
                valid =
                    subst (λ r. is_valid_rule zod r ≡ true) (sym own)
                      (parse_rule-valid zod made rule parsed);
              }
        ]
  ]

module _ (zod : Zod) (casing : Casing) (deps : Deps) (correction : CorrectionEvent) where
  compile_atoms-IsGuarded :
      (originating : Option InterceptedAction) (atoms : List String) (j k : Journal)
      (compiled : CompiledCorrection)
      → compile_atoms zod casing deps correction originating atoms j ≡ (ok compiled, k)
      → All (IsGuarded zod correction) compiled.policy_rules
  compile_atoms-IsGuarded originating [] j k compiled e =
      let wrong : err _ ≡ ok compiled = ap (λ p. p.0) e in cc
  compile_atoms-IsGuarded originating (atom ∷ atoms) j k compiled e =
      let (parsed, j₁, _, e₁) = >>=-ends_ok (lift _) _ j e in
      let (made, j₂, looped, last) =
        >>=-ends_ok (for_each (compile_atom zod casing deps correction parsed) (atom ∷ atoms)) _ j₁
          e₁ in
      let same : ok (compiled_of made) ≡ ok compiled = ap (λ p. p.0) last in
      let listed : compiled_of made ≡ compiled = cc in
      subst (λ c. All (IsGuarded zod correction) c.policy_rules) listed
        (All-map (IsGuarded zod correction) (λ c. c.rule) made
          (for_each-All (λ c. IsGuarded zod correction c.rule)
            (compile_atom zod casing deps correction parsed) (atom ∷ atoms) j₁ j₂ made
            (λ x u v c f. compile_atom-IsGuarded zod casing deps correction parsed x u v c f)
            looped))

  -- Whatever the operator's words and the originating action, each rule that a correction
  -- compiles to is valid, proposed, of the first version and traced to the correction, and does
  -- not allow.
  pub compile_correction-IsGuarded :
      (originating : Option InterceptedAction) (j k : Journal) (compiled : CompiledCorrection)
      → compile_correction zod casing deps correction originating j ≡ (ok compiled, k)
      → All (IsGuarded zod correction) compiled.policy_rules
  unfolding compile_correction
  compile_correction-IsGuarded originating j k compiled e =
      compile_atoms-IsGuarded originating (atomic_corrections correction.correction) j k compiled e
