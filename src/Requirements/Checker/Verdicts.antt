-- ===== src/Requirements/Checker/Verdicts.antt =====
-- What a report of packages/governance/src/active-requirement-checker.ts says.
use liminal_engine.Prelude.{
  String, ◌≡◌, refl, sym, ◌↔◌, ◌∙◌, Bool, true, false, not, ◌&&◌, none, List, [], ◌∷◌, filter, find,
  All, Member, holds_of_Member, find-none, Bool-cases, Option-cases, inl, inr, ◌⊎◌, arith,
}
use mathlib.Core.Bool.{false≢true}
use liminal_engine.Contracts.Requirement.{Requirement}
use liminal_engine.Contracts.Parsing.{is_requirement_active}
use liminal_engine.Requirements.Checker.{
  CheckSubject, classify, is_graded, is_hard, is_satisfied, finding, grade, none_of,
  requirement_in_scope, phrase_references_requirement, check_requirements, unaddressed,
}

module _ (lower : String → String) (subject : CheckSubject) where
  -- A requirement that the subject does not fail: graded and hard, it is satisfied.
  abbrev pub Clears : Requirement → Type 0
  Clears r =
      is_graded lower subject r ≡ true
      → is_hard r.severity ≡ true
      → is_satisfied (classify lower r subject).status ≡ true

  abbrev passes : List Requirement → Bool
  passes rs = none_of (filter (λ f. f.case_opening) (grade lower subject rs).0)

  passes-skipped :
      (r : Requirement) (rs : List Requirement)
      → is_graded lower subject r ≡ false
      → passes (r ∷ rs) ≡ passes rs
  unfolding grade
  passes-skipped r rs h = elim (Bool-cases (is_requirement_active r.status)) [
    | inr e ↦ rw e refl
    | inl e ↦ elim (Bool-cases (requirement_in_scope lower r subject.surfaces)) [
      | inr f ↦ rw (e, f) refl
      | inl f ↦ let bad : true ≡ false = rw (e, f) at h in cc
    ]
  ]

  passes-graded :
      (r : Requirement) (rs : List Requirement)
      → is_graded lower subject r ≡ true
      → passes (r ∷ rs) ≡ (
          not (is_hard r.severity && not (is_satisfied (classify lower r subject).status))
          && passes rs)
  unfolding grade finding
  passes-graded r rs h = elim (Bool-cases (is_requirement_active r.status)) [
    | inr e ↦ let bad : false ≡ true = rw e at h in cc
    | inl e ↦ elim (Bool-cases (requirement_in_scope lower r subject.surfaces)) [
      | inr f ↦ let bad : false ≡ true = rw (e, f) at h in cc
      | inl f ↦
          elim (Bool-cases
            (is_hard r.severity && not (is_satisfied (classify lower r subject).status))) [
              | inl g ↦ rw (e, f, g) refl
              | inr g ↦ rw (e, f, g) refl
            ]
    ]
  ]

  passes_iff : (rs : List Requirement) → (passes rs ≡ true) ↔ All Clears rs
  unfolding grade
  passes_iff [] = (λ h. tt, λ h. refl)
  passes_iff (r ∷ rs) =
      let (to, from) = passes_iff rs in
      elim (Bool-cases (is_graded lower subject r)) [
        | inr e ↦ (
          λ h. (
            λ graded. absurd (false≢true (sym e ∙ graded)),
            to (sym (passes-skipped r rs e) ∙ h),
          ),
          λ h. passes-skipped r rs e ∙ from h.1,
        )
        | inl e ↦ (
          λ h.
              let both : _ = sym (passes-graded r rs e) ∙ h in
              (λ graded hard. ground arith, to (ground arith)),
          λ h. passes-graded r rs e ∙ (elim (Bool-cases (is_hard r.severity)) [
            | inl g ↦ rw (g, h.0 e g, from h.1) refl
            | inr g ↦ rw (g, from h.1) refl
          ]),
        )
      ]

  -- A subject passes the check exactly when every requirement that is active, in the subject's
  -- scope and hard is classified as satisfied.
  pub passed_iff :
      (requirements : List Requirement)
      → ((check_requirements lower requirements subject).passed ≡ true) ↔ All Clears requirements
  unfolding check_requirements
  passed_iff requirements = passes_iff requirements

  none_of-Member :
      (r : Requirement) (phrase : String) (phrases : List String)
      → Member phrase phrases
      → phrase_references_requirement lower phrase r ≡ true
      → ¬ (find (λ p. phrase_references_requirement lower p r) phrases ≡ none)
  none_of-Member r phrase phrases m h e = false≢true (
      sym (
        holds_of_Member (λ p. phrase_references_requirement lower p r ≡ false) phrase phrases m
          (find-none (λ p. phrase_references_requirement lower p r) phrases e))
      ∙ h)

  not_satisfied : (b : Bool) → is_satisfied (unaddressed b) ≡ false
  not_satisfied true = refl
  not_satisfied false = refl

  references-fail :
      (r : Requirement) (phrase : String)
      → Member phrase subject.violated_requirements ⊎ Member phrase subject.dropped_requirements
      → phrase_references_requirement lower phrase r ≡ true
      → is_satisfied (classify lower r subject).status ≡ false
  unfolding classify
  references-fail r phrase m h =
      elim (Option-cases
        (find (λ p. phrase_references_requirement lower p r) subject.violated_requirements)) [
          | inr (v, e) ↦ rw e refl
          | inl e ↦
              elim (Option-cases (
                find (λ p. phrase_references_requirement lower p r) subject.dropped_requirements)) [
                  | inr (d, f) ↦ rw (e, f) (not_satisfied subject.claims_on_track)
                  | inl f ↦ elim m [
                    | inl v ↦ absurd (none_of-Member r phrase subject.violated_requirements v h e)
                    | inr d ↦ absurd (none_of-Member r phrase subject.dropped_requirements d h f)
                  ]
                ]
        ]

  -- Where a phrase that the subject violates or drops references an active, hard requirement in
  -- its scope, the subject does not pass, whatever its text says and whichever owners it names.
  pub referenced-fails :
      (requirements : List Requirement) (r : Requirement) (phrase : String)
      → Member r requirements
      → is_graded lower subject r ≡ true
      → is_hard r.severity ≡ true
      → Member phrase subject.violated_requirements ⊎ Member phrase subject.dropped_requirements
      → phrase_references_requirement lower phrase r ≡ true
      → (check_requirements lower requirements subject).passed ≡ false
  referenced-fails requirements r phrase m graded hard named h =
      elim (Bool-cases (check_requirements lower requirements subject).passed) [
        | inr e ↦ e
        | inl e ↦
            let clears = holds_of_Member Clears r requirements m ((passed_iff requirements).0 e) in
            absurd (false≢true (sym (references-fail r phrase named h) ∙ clears graded hard))
      ]
