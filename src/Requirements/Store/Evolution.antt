-- ===== src/Requirements/Store/Evolution.antt =====
-- How packages/integrations/requirement-store/src/index.ts lets its log of versions grow.
use liminal_engine.Prelude.{
  ℕ, suc, String, eq_iff, ◌≡◌, refl, sym, ap, subst, ◌∙◌, true, false, Option, none, some, List, [],
  ◌∷◌, ◌++◌, Result, if◌then◌else◌, Option-cases, Bool-cases, Result-cases, inl, inr, arith,
}
use liminal_engine.Contracts.Zod.{Zod}
use liminal_engine.Contracts.Requirement.{RequirementStatus, Requirement}
use liminal_engine.Contracts.Parsing.{is_valid_requirement, is_requirement_active}
use liminal_engine.Requirements.Port.{
  RequirementDraft, RequirementAmendment, StoreResult, value, error,
}
use liminal_engine.Requirements.Store.{
  Store, is_proposed, is_terminal, has_id, current, amended, Command, create, approve, reject,
  retire, amend, append, append_now, run_create, run_approve, run_reject, run_retire, run_amend,
  run,
}

-- The lifecycle: what a call may put after the current version of its id, if there is one.
pub data Moves : Command → Option Requirement → Requirement → Type 0 where
  created :
      {draft : RequirementDraft} {r : Requirement}
      → r.status ≡ RequirementStatus.proposed
      → Moves (create draft) none r
  approved :
      {id : String} {r : Requirement} (who time : String)
      → r.id ≡ id
      → r.status ≡ RequirementStatus.proposed
      → Moves (approve id who) (some r) (record r {
        status = RequirementStatus.active;
        approved_by = some who;
        activated_at = some time;
      })
  rejected :
      {id : String} {r : Requirement}
      → r.id ≡ id
      → r.status ≡ RequirementStatus.proposed
      → Moves (reject id) (some r) (record r { status = RequirementStatus.rejected })
  retired :
      {id : String} {r : Requirement}
      → r.id ≡ id
      → r.status ≡ RequirementStatus.active
      → Moves (retire id) (some r) (record r { status = RequirementStatus.retired })
  revised :
      {id : String} {r : Requirement} (changes : RequirementAmendment)
      → r.id ≡ id
      → is_terminal r.status ≡ false
      → Moves (amend id changes) (some r) (amended changes r)

proposed_of_test : (s : RequirementStatus) → is_proposed s ≡ true → s ≡ RequirementStatus.proposed
proposed_of_test RequirementStatus.proposed h = refl
proposed_of_test RequirementStatus.active h = cc
proposed_of_test RequirementStatus.rejected h = cc
proposed_of_test RequirementStatus.retired h = cc

active_of_test :
    (s : RequirementStatus) → is_requirement_active s ≡ true → s ≡ RequirementStatus.active
active_of_test RequirementStatus.active h = refl
active_of_test RequirementStatus.proposed h = cc
active_of_test RequirementStatus.rejected h = cc
active_of_test RequirementStatus.retired h = cc

pub current-append :
    (id : String) (vs : List Requirement) (r : Requirement)
    → current id (vs ++ r ∷ []) ≡ (if has_id id r then some r else current id vs)
unfolding current
current-append id [] r = refl
current-append id (v ∷ vs) r = elim (Bool-cases (has_id id r)) [
  | inl e ↦ rw (current-append id vs r, e)
  | inr e ↦ rw (current-append id vs r, e)
]

pub current-has_id :
    (id : String) (vs : List Requirement) (r : Requirement) → current id vs ≡ some r → r.id ≡ id
unfolding current
current-has_id id [] r h = cc
current-has_id id (v ∷ vs) r h = elim (Option-cases (current id vs)) [
  | inl e ↦ ground (arith, eq_iff v.id id)
  | inr (w, e) ↦ current-has_id id vs r (ground arith)
]

amended-id : (changes : RequirementAmendment) (r : Requirement) → (amended changes r).id ≡ r.id
unfolding amended
amended-id changes r = refl

module _ (zod : Zod) (next_id now : ℕ → Result String) where
  -- What the call `c` does to the log: with a value, the value is appended, it satisfies the contract
  -- and it is the call's lifecycle move from the current version of its id; with an error, nothing
  -- changes.
  pub data Evolves (c : Command) (old : List Requirement)
      : StoreResult Requirement → List Requirement → Type 0 where
    grows :
        (r : Requirement)
        → is_valid_requirement zod r ≡ true
        → Moves c (current r.id old) r
        → Evolves c old (value r) (old ++ r ∷ [])
    stays : {e : _} → Evolves c old (error e) old

  append-Evolves :
      {c : Command} (r : Requirement) (s : Store)
      → Moves c (current r.id s.versions) r
      → Evolves c s.versions (append zod next_id now r s).0 (append zod next_id now r s).1.versions
  unfolding append
  append-Evolves r s m = elim (Bool-cases (is_valid_requirement zod r)) [
    | inl e ↦ rw e (grows r e m)
    | inr e ↦ rw e stays
  ]

  append_now-Evolves :
      {c : Command} (f : String → Requirement) (s : Store)
      → ((t : String) → Moves c (current (f t).id s.versions) (f t))
      → Evolves c s.versions
          (append_now zod next_id now f s).0
          (append_now zod next_id now f s).1.versions
  unfolding append_now
  append_now-Evolves f s m = elim (Result-cases (now s.ticks)) [
    | inl (t, e) ↦
        rw (append_now, e) (append-Evolves (f t) (record s { ticks = suc s.ticks }) (m t))
    | inr (w, e) ↦ rw (append_now, e) stays
  ]

  run_create-Evolves :
      (d : RequirementDraft) (s : Store)
      → Evolves
          (create d)
          s.versions
          (run_create zod next_id now d s).0
          (run_create zod next_id now d s).1.versions
  unfolding run_create
  run_create-Evolves d s = elim (Result-cases (next_id s.minted)) [
    | inl (id, e) ↦ elim (Option-cases (current id s.versions)) [
      | inl free ↦
          rw (run_create, e, free)
            (append_now-Evolves _ (record s { minted = suc s.minted })
              (λ t. rw free (created refl)))
      | inr (r, taken) ↦ rw (run_create, e, taken) stays
    ]
    | inr (w, e) ↦ rw (run_create, e) stays
  ]

  module _ (id : String) (s : Store) where
    -- A move of the current version is a move of its own id.
    Moves-of_current :
        {c : Command} (old new : Requirement)
        → current id s.versions ≡ some old
        → new.id ≡ old.id
        → Moves c (some old) new
        → Moves c (current new.id s.versions) new
    Moves-of_current {c} old new e same m =
        let own : new.id ≡ id = same ∙ current-has_id id s.versions old e in
        subst (λ o. Moves c o new) (sym (ap (λ i. current i s.versions) own ∙ e)) m

    run_approve-Evolves :
        (who : String)
        → Evolves
            (approve id who)
            s.versions
            (run_approve zod next_id now id who s).0
            (run_approve zod next_id now id who s).1.versions
    unfolding run_approve
    run_approve-Evolves who = elim (Option-cases (current id s.versions)) [
      | inl e ↦ rw (run_approve, e) stays
      | inr (r, e) ↦ elim (Bool-cases (is_proposed r.status)) [
        | inl p ↦
            rw (run_approve, e, p)
              (append_now-Evolves _ s (λ t.
                Moves-of_current r _ e refl (
                  approved who t (current-has_id id s.versions r e) (proposed_of_test r.status p))))
        | inr p ↦ rw (run_approve, e, p) stays
      ]
    ]

    run_reject-Evolves :
        Evolves
          (reject id)
          s.versions
          (run_reject zod next_id now id s).0
          (run_reject zod next_id now id s).1.versions
    unfolding run_reject
    run_reject-Evolves = elim (Option-cases (current id s.versions)) [
      | inl e ↦ rw (run_reject, e) stays
      | inr (r, e) ↦ elim (Bool-cases (is_proposed r.status)) [
        | inl p ↦
            rw (run_reject, e, p)
              (append-Evolves _ s (
                Moves-of_current r _ e refl
                  (rejected (current-has_id id s.versions r e) (proposed_of_test r.status p))))
        | inr p ↦ rw (run_reject, e, p) stays
      ]
    ]

    run_retire-Evolves :
        Evolves
          (retire id)
          s.versions
          (run_retire zod next_id now id s).0
          (run_retire zod next_id now id s).1.versions
    unfolding run_retire
    run_retire-Evolves = elim (Option-cases (current id s.versions)) [
      | inl e ↦ rw (run_retire, e) stays
      | inr (r, e) ↦ elim (Bool-cases (is_requirement_active r.status)) [
        | inl p ↦
            rw (run_retire, e, p)
              (append-Evolves _ s (
                Moves-of_current r _ e refl
                  (retired (current-has_id id s.versions r e) (active_of_test r.status p))))
        | inr p ↦ rw (run_retire, e, p) stays
      ]
    ]

    run_amend-Evolves :
        (changes : RequirementAmendment)
        → Evolves
            (amend id changes)
            s.versions
            (run_amend zod next_id now id changes s).0
            (run_amend zod next_id now id changes s).1.versions
    unfolding run_amend
    run_amend-Evolves changes = elim (Option-cases (current id s.versions)) [
      | inl e ↦ rw (run_amend, e) stays
      | inr (r, e) ↦ elim (Bool-cases (is_terminal r.status)) [
        | inl p ↦ rw (run_amend, e, p) stays
        | inr p ↦
            rw (run_amend, e, p)
              (append-Evolves _ s (
                Moves-of_current r (amended changes r) e (amended-id changes r)
                  (revised changes (current-has_id id s.versions r e) p)))
      ]
    ]

  -- Every call that changes the requirement store either appends its result, which satisfies the
  -- contract and is the lifecycle move of that very call from the current version of its id, or
  -- fails and changes no version; throws of the id generator and the clock included.
  pub run-Evolves :
      (c : Command) (s : Store)
      → Evolves c s.versions (run zod next_id now c s).0 (run zod next_id now c s).1.versions
  unfolding run
  run-Evolves (create d) s = run_create-Evolves d s
  run-Evolves (approve id who) s = run_approve-Evolves id s who
  run-Evolves (reject id) s = run_reject-Evolves id s
  run-Evolves (retire id) s = run_retire-Evolves id s
  run-Evolves (amend id changes) s = run_amend-Evolves id s changes
