-- ===== src/Tests/Requirements.antt =====
-- packages/integrations/requirement-store on a proposed, approved and retired requirement.
use liminal_engine.Prelude.{
  ℕ, String, ◌==◌, ◌≡◌, refl, sym, subst, ◌↔◌, inl, inr, Bool, true, none, some, List, [], ◌∷◌,
  Member, Result, ok, ◌&&◌,
}
use liminal_engine.Contracts.Requirement.{
  RequirementSeverity, RequirementStatus, RequirementCreatedBy, Requirement,
}
use liminal_engine.Contracts.Parsing.{is_valid_requirement, is_requirement_active}
use liminal_engine.Requirements.Port.{RequirementDraft, value}
use liminal_engine.Requirements.Store.{
  Store, empty_store, is_terminal, current, active, Command, create, approve, retire, append,
  append_now, run_create, run_approve, run_retire, run, run_all,
}
use liminal_engine.Requirements.Store.Evolution.{Evolves, run-Evolves}
use liminal_engine.Requirements.Store.Lifecycle.{active-IsApproved, terminal-stays}
use liminal_engine.Requirements.Store.Active.{Member-active}
use liminal_engine.Contracts.Canonical.{requirement_canonical}
use liminal_engine.Contracts.Canonical.Obligation.{
  requirement_of, requirement_of-requirement_canonical,
}
use liminal_engine.Tests.Fixtures.{zod}

abbrev next_id : ℕ → Result String
next_id n = ok "req_0"

abbrev now : ℕ → Result String
now n = ok "2026-06-27T10:00:00.000Z"

abbrev draft : RequirementDraft
draft = record {
  goal_id = "goal_acme";
  deal_id = "deal_acme";
  text = "EU data stays in the EU.";
  owner_role = "Security";
  severity = RequirementSeverity.hard;
  scope = "launch-plan" ∷ [];
  created_by = RequirementCreatedBy.operator;
  evidence_refs = [];
}

abbrev proposed : Requirement
proposed = record {
  id = "req_0";
  goal_id = "goal_acme";
  deal_id = "deal_acme";
  text = "EU data stays in the EU.";
  owner_role = "Security";
  severity = RequirementSeverity.hard;
  scope = "launch-plan" ∷ [];
  status = RequirementStatus.proposed;
  created_by = RequirementCreatedBy.operator;
  approved_by = none;
  evidence_refs = [];
  created_at = "2026-06-27T10:00:00.000Z";
  activated_at = none;
}

abbrev governing : Requirement
governing = record proposed {
  status = RequirementStatus.active;
  approved_by = some "VP Ops";
  activated_at = some "2026-06-27T10:00:00.000Z";
}

abbrev withdrawn : Requirement
withdrawn = record governing { status = RequirementStatus.retired }

abbrev approved_store : Store
approved_store = record { versions = proposed ∷ governing ∷ []; minted = 1; ticks = 2 }

abbrev commands : List Command
commands = create draft ∷ approve "req_0" "VP Ops" ∷ []

runs : run_all zod next_id now commands empty_store ≡ approved_store
unfolding run run_create run_approve append_now append current is_valid_requirement
runs = refl

retires :
    run zod next_id now (retire "req_0") approved_store
    ≡ (value withdrawn, record approved_store { versions = proposed ∷ governing ∷ withdrawn ∷ [] })
unfolding run run_retire append current is_valid_requirement
retires = refl

run-Evolves_example :
    Evolves zod next_id now
      (retire "req_0")
      approved_store.versions
      (run zod next_id now (retire "req_0") approved_store).0
      (run zod next_id now (retire "req_0") approved_store).1.versions
run-Evolves_example = run-Evolves zod next_id now (retire "req_0") approved_store

active-IsApproved_example :
    (is_valid_requirement zod governing ≡ true)
    × (who : String) × (governing.approved_by ≡ some who)
    × Member (approve "req_0" who) commands
active-IsApproved_example =
    active-IsApproved zod next_id now commands governing
      (subst (λ s. Member governing s.versions) (sym runs) (inr (inl refl))) refl

abbrev retired_store : Store
retired_store = record approved_store { versions = proposed ∷ governing ∷ withdrawn ∷ [] }

terminal-stays_example :
    current "req_0" (run_all zod next_id now commands retired_store).versions ≡ some withdrawn
terminal-stays_example =
    terminal-stays zod next_id now commands retired_store "req_0" withdrawn (unfold current in refl)
      (unfold is_terminal in refl)

abbrev on_launch : Requirement → Bool
on_launch r = r.deal_id == "deal_acme"

Member-active_example : Member governing (active on_launch (proposed ∷ governing ∷ [])) ↔ (
    (current "req_0" (proposed ∷ governing ∷ []) ≡ some governing)
    × ((is_requirement_active governing.status && on_launch governing) ≡ true))
Member-active_example = Member-active on_launch (proposed ∷ governing ∷ []) governing

requirement_of-requirement_canonical_example :
    requirement_of (requirement_canonical governing) ≡ governing
requirement_of-requirement_canonical_example = requirement_of-requirement_canonical governing
