-- ===== src/Governance/Correction/Frugal.antt =====
-- The compiler of packages/governance/src/compile-correction.ts and the ledger.
use liminal_engine.Prelude.{String, Option, List, [], ◌∷◌}
use liminal_engine.Prelude.Effect.{Moves-for_each}
use liminal_engine.Contracts.Action.{InterceptedAction}
use liminal_engine.Contracts.Zod.{Zod}
use liminal_engine.Contracts.PolicyRule.{ActionPolicyRule}
use liminal_engine.Contracts.Correction.{CorrectionEvent}
use liminal_engine.Governance.Journal.{
  Deps, Extending, Extending->>=, Extending-lift, next_id-Extending, now-Extending, IsExtended-refl,
  IsExtended-trans,
}
use liminal_engine.Governance.Correction.Atoms.{atomic_corrections}
use liminal_engine.Governance.Correction.Phrases.{Casing, Template}
use liminal_engine.Governance.Correction.Compiler.{
  around_rule, compile_atom, compile_atoms, compile_correction,
}

module _ (zod : Zod) (casing : Casing) (deps : Deps) where
  around_rule-Extending :
      (correction : CorrectionEvent) (t : Template) (action_id : String) (rule : ActionPolicyRule)
      → Extending (around_rule zod casing deps correction t action_id rule)
  unfolding around_rule
  around_rule-Extending correction t action_id rule =
      Extending->>= _ _ (now-Extending deps) λ graded_at.
        Extending->>= _ _ (Extending-lift _) λ eval_case.
          Extending->>= _ _ (now-Extending deps) λ enforced_at.
            Extending->>= _ _ (Extending-lift _)
              λ enforcement. record { at = λ j. IsExtended-refl j.ledger }

  compile_atom-Extending :
      (correction : CorrectionEvent) (originating : Option InterceptedAction) (atom : String)
      → Extending (compile_atom zod casing deps correction originating atom)
  unfolding compile_atom
  compile_atom-Extending correction originating atom = Extending->>= _ _ (Extending-lift _) λ t.
      Extending->>= _ _ (next_id-Extending deps) λ rule_id.
        Extending->>= _ _ (next_id-Extending deps) λ eval_case_id.
          Extending->>= _ _ (next_id-Extending deps) λ action_id.
            Extending->>= _ _ (now-Extending deps) λ created_at.
              Extending->>= _ _ (Extending-lift _)
                λ rule. around_rule-Extending correction t action_id rule

  pub compile_correction-Extending :
      (correction : CorrectionEvent) (originating : Option InterceptedAction)
      → Extending (compile_correction zod casing deps correction originating)
  unfolding compile_correction
  compile_correction-Extending correction originating =
      of_atoms (atomic_corrections correction.correction)
    where
      of_atoms :
          (atoms : List String)
          → Extending (compile_atoms zod casing deps correction originating atoms)
      of_atoms [] = record { at = λ j. IsExtended-refl j.ledger }
      of_atoms (atom ∷ atoms) = Extending->>= _ _ (Extending-lift _) λ parsed.
          Extending->>= _ _
            (Moves-for_each _ (λ j. IsExtended-refl j.ledger)
              (λ i j k. IsExtended-trans i.ledger j.ledger k.ledger) _ (atom ∷ atoms)
              (compile_atom-Extending correction parsed))
            λ compiled. record { at = λ j. IsExtended-refl j.ledger }
