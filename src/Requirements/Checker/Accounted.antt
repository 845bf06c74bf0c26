-- ===== src/Requirements/Checker/Accounted.antt =====
-- Which requirements a report of packages/governance/src/active-requirement-checker.ts accounts for.
use mathlib.Core.List.{Perm, perm_middle}
use mathlib.Core.List.Perm
use liminal_engine.Prelude.{
  String, ◌≡◌, refl, ap, List, [], ◌∷◌, ◌++◌, map, filter, Bool-cases, inl, inr,
}
use liminal_engine.Contracts.Requirement.{Requirement}
use liminal_engine.Contracts.Parsing.{is_requirement_active}
use liminal_engine.Requirements.Checker.{
  CheckSubject, requirement_in_scope, is_graded, finding, grade, check_requirements,
}

module _ (lower : String → String) (subject : CheckSubject) where
  grade-Perm :
      (rs : List Requirement)
      → Perm ((grade lower subject rs).1 ++ (grade lower subject rs).2) (map (λ r. r.id) rs)
  unfolding grade
  grade-Perm [] = Perm.rfl
  grade-Perm (r ∷ rs) =
      let (findings, checked, skipped) = grade lower subject rs in
      let rest : Perm (checked ++ skipped) (map (λ r. r.id) rs) = grade-Perm rs in
      let put_off : Perm (checked ++ r.id ∷ skipped) (r.id ∷ map (λ r. r.id) rs) =
        Perm.trans (perm_middle checked skipped) (Perm.cons r.id rest) in
      elim (Bool-cases (is_requirement_active r.status)) [
        | inr e ↦ rw e put_off
        | inl e ↦ elim (Bool-cases (requirement_in_scope lower r subject.surfaces)) [
          | inr f ↦ rw (e, f) put_off
          | inl f ↦ rw (e, f) (Perm.cons r.id rest)
        ]
      ]

  grade-checked :
      (rs : List Requirement)
      → ((grade lower subject rs).1 ≡ map (λ f. f.requirement_id) (grade lower subject rs).0)
        × ((grade lower subject rs).1 ≡ map (λ r. r.id) (filter (is_graded lower subject) rs))
  unfolding grade finding
  grade-checked [] = (refl, refl)
  grade-checked (r ∷ rs) =
      let (found, kept) = grade-checked rs in
      elim (Bool-cases (is_requirement_active r.status)) [
        | inr e ↦ rw e (found, kept)
        | inl e ↦ elim (Bool-cases (requirement_in_scope lower r subject.surfaces)) [
          | inr f ↦ rw (e, f) (found, kept)
          | inl f ↦ rw (e, f) (ap (λ ids. r.id ∷ ids) found, ap (λ ids. r.id ∷ ids) kept)
        ]
      ]

  -- A report accounts for every requirement: the checked ids and the skipped ids together are the
  -- ids of all requirements, up to order, the checked ones are those of the active requirements
  -- in scope, in their order, and there is one finding for each of them, in the same order.
  pub check_requirements-accounts :
      (requirements : List Requirement)
      → let report = check_requirements lower requirements subject in
        Perm
          (report.checked_requirement_ids ++ report.skipped_requirement_ids)
          (map (λ r. r.id) requirements)
        × (report.checked_requirement_ids
            ≡ map (λ r. r.id) (filter (is_graded lower subject) requirements))
        × (report.checked_requirement_ids ≡ map (λ f. f.requirement_id) report.findings)
  unfolding check_requirements
  check_requirements-accounts requirements =
      let (found, kept) = grade-checked requirements in (grade-Perm requirements, kept, found)
