-- ===== src/Requirements/Store/Lifecycle.antt =====
-- What holds of the log of packages/integrations/requirement-store/src/index.ts over any run of
-- calls.
use liminal_engine.Prelude.{
  ℕ, String, ◌==◌, eq_iff, eq_refl, ◌≡◌, refl, ap, subst, ◌∙◌, true, Option, some, List, [], ◌∷◌,
  ◌++◌, Result, All, All-append, Member, holds_of_Member, Bool-cases, Option-cases, inl, inr, arith,
  sym,
}
use liminal_engine.Contracts.Zod.{Zod}
use liminal_engine.Contracts.Requirement.{RequirementStatus, Requirement}
use liminal_engine.Contracts.Parsing.{is_valid_requirement}
use liminal_engine.Requirements.Port.{StoreResult, value}
use liminal_engine.Requirements.Store.{
  Store, empty_store, is_terminal, has_id, current, amended, get, Command, approve, run, run_all,
}
use liminal_engine.Requirements.Store.Evolution.{
  Moves, created, approved, rejected, retired, revised, current-append, Evolves, grows, stays,
  run-Evolves,
}

++-assoc : (xs ys zs : List Requirement) → (xs ++ ys) ++ zs ≡ xs ++ (ys ++ zs)
++-assoc [] ys zs = refl
++-assoc (x ∷ xs) ys zs = rw (++-assoc xs ys zs)

++-[] : (xs : List Requirement) → xs ≡ xs ++ []
++-[] [] = refl
++-[] (x ∷ xs) = ap (λ ys. x ∷ ys) (++-[] xs)

-- A version in a terminal status has no move.
not_Moves_of_terminal :
    {c : Command} (r : Requirement) (o : Option Requirement) (new : Requirement)
    → o ≡ some r
    → is_terminal r.status ≡ true
    → ¬ Moves c o new
unfolding is_terminal
not_Moves_of_terminal r o new e t (created p) = cc
not_Moves_of_terminal r o new e t (approved {r = r'} who time own p) =
    let same : r ≡ r' = cc in ground (arith, same, p)
not_Moves_of_terminal r o new e t (rejected {r = r'} own p) =
    let same : r ≡ r' = cc in ground (arith, same, p)
not_Moves_of_terminal r o new e t (retired {r = r'} own p) =
    let same : r ≡ r' = cc in ground (arith, same, p)
not_Moves_of_terminal r o new e t (revised {r = r'} changes own p) =
    let same : r ≡ r' = cc in ground (arith, same, p)

module _ (zod : Zod) (next_id now : ℕ → Result String) where
  abbrev Valid : Requirement → Type 0
  Valid r = is_valid_requirement zod r ≡ true

  module _ {c : Command} {old : List Requirement} where
    Evolves-appends :
        {res : StoreResult Requirement} {new : List Requirement}
        → Evolves zod next_id now c old res new
        → (extra : List Requirement) × (new ≡ old ++ extra)
    Evolves-appends (grows r v m) = (r ∷ [], refl)
    Evolves-appends stays = ([], ++-[] old)

    Evolves-Valid :
        {res : StoreResult Requirement} {new : List Requirement}
        → Evolves zod next_id now c old res new
        → All Valid old
        → All Valid new
    Evolves-Valid (grows r v m) h = All-append Valid old (r ∷ []) h (v, tt)
    Evolves-Valid stays h = h

    Evolves-terminal :
        {res : StoreResult Requirement} {new : List Requirement} (id : String) (r : Requirement)
        → Evolves zod next_id now c old res new
        → current id old ≡ some r
        → is_terminal r.status ≡ true
        → current id new ≡ some r
    Evolves-terminal id r (grows q v m) e t = elim (Bool-cases (has_id id q)) [
      | inl own ↦ absurd (
          not_Moves_of_terminal r (current q.id old) q
            (ap (λ i. current i old) ((eq_iff q.id id).0 own) ∙ e) t m)
      | inr other ↦ rw (current-append id old q, other) e
    ]
    Evolves-terminal id r stays e t = e

    Evolves-get :
        {res : StoreResult Requirement} {new : List Requirement} (r : Requirement)
        → Evolves zod next_id now c old res new
        → res ≡ value r
        → get r.id new ≡ value r
    unfolding get
    Evolves-get r (grows q v m) e =
        let same : q ≡ r = cc in
        let own : (q.id == q.id) ≡ true = eq_refl q.id in
        subst (λ x. get x.id (old ++ q ∷ []) ≡ value x) same
          (rw (get, current-append q.id old q, own) refl)
    Evolves-get r stays e = cc

  -- What a successful call on the requirement store returns is what the store finds under its id
  -- afterwards.
  get-run :
      (c : Command) (s : Store) (r : Requirement)
      → (run zod next_id now c s).0 ≡ value r
      → get r.id (run zod next_id now c s).1.versions ≡ value r
  get-run c s r e = Evolves-get r (run-Evolves zod next_id now c s) e

  run_all-Valid :
      (commands : List Command) (s : Store)
      → All Valid s.versions
      → All Valid (run_all zod next_id now commands s).versions
  run_all-Valid [] s h = h
  run_all-Valid (c ∷ commands) s h =
      run_all-Valid commands (run zod next_id now c s).1
        (Evolves-Valid (run-Evolves zod next_id now c s) h)

  -- One of the calls approved the version's id in the name that the version carries.
  abbrev IsApprovedIn : List Command → Requirement → Type 0
  IsApprovedIn commands r =
      r.status ≡ RequirementStatus.active
      → (who : String) × (r.approved_by ≡ some who) × Member (approve r.id who) commands

  current-Member :
      (id : String) (vs : List Requirement) (r : Requirement) → current id vs ≡ some r → Member r vs
  unfolding current
  current-Member id [] r h = cc
  current-Member id (v ∷ vs) r h = elim (Option-cases (current id vs)) [
    | inl e ↦ inl (sym (ground arith))
    | inr (w, e) ↦ inr (current-Member id vs r (ground arith))
  ]

  -- A move leaves an active version only if the call approves it, or the version before was active.
  Moves-IsApprovedIn :
      {c : Command} (commands : List Command) (o : Option Requirement) (new : Requirement)
      → Member c commands
      → ((r : Requirement) → o ≡ some r → IsApprovedIn commands r)
      → Moves c o new
      → IsApprovedIn commands new
  unfolding amended
  Moves-IsApprovedIn commands o new m h (created p) a =
      let bad : RequirementStatus.proposed ≡ RequirementStatus.active = sym p ∙ a in cc
  Moves-IsApprovedIn commands o new m h (approved {id} {r} who time own p) a =
      (who, refl, subst (λ i. Member (approve i who) commands) (sym own) m)
  Moves-IsApprovedIn commands o new m h (rejected own p) a = cc
  Moves-IsApprovedIn commands o new m h (retired own p) a = cc
  Moves-IsApprovedIn commands o new m h (revised {id} {r} changes own p) a = h r refl a

  Evolves-IsApprovedIn :
      {c : Command} {old : List Requirement} {res : StoreResult Requirement}
      {new : List Requirement} (commands : List Command)
      → Member c commands
      → Evolves zod next_id now c old res new
      → All (IsApprovedIn commands) old
      → All (IsApprovedIn commands) new
  Evolves-IsApprovedIn {old} commands m (grows q v moves) h =
      All-append (IsApprovedIn commands) old (q ∷ []) h (
        Moves-IsApprovedIn commands (current q.id old) q m
            (λ r e. holds_of_Member (IsApprovedIn commands) r old (current-Member q.id old r e) h)
            moves,
        tt,
      )
  Evolves-IsApprovedIn commands m stays h = h

  run_all-IsApprovedIn :
      (commands all_commands : List Command) (s : Store)
      → ((c : Command) → Member c commands → Member c all_commands)
      → All (IsApprovedIn all_commands) s.versions
      → All (IsApprovedIn all_commands) (run_all zod next_id now commands s).versions
  run_all-IsApprovedIn [] all_commands s sub h = h
  run_all-IsApprovedIn (c ∷ commands) all_commands s sub h =
      run_all-IsApprovedIn commands all_commands (run zod next_id now c s).1 (λ d m. sub d (inr m))
        (Evolves-IsApprovedIn all_commands (sub c (inl refl)) (run-Evolves zod next_id now c s) h)

  -- After any run of calls from the empty store, a version in the active status satisfies the
  -- contract, and one of the calls approved its id in the name of the role that the version
  -- carries as its approver.
  pub active-IsApproved :
      (commands : List Command) (r : Requirement)
      → Member r (run_all zod next_id now commands empty_store).versions
      → r.status ≡ RequirementStatus.active
      → (is_valid_requirement zod r ≡ true)
        × (who : String) × (r.approved_by ≡ some who)
        × Member (approve r.id who) commands
  active-IsApproved commands r m a =
      let (who, named, called) =
        holds_of_Member (IsApprovedIn commands) r _ m
          (run_all-IsApprovedIn commands commands empty_store (λ c k. k) tt) a in
      (holds_of_Member Valid r _ m (run_all-Valid commands empty_store tt), who, named, called)

  -- A run of calls on the requirement store only ever adds versions after those that it found.
  run_all-appends :
      (commands : List Command) (s : Store)
      → (extra : List Requirement) × ((run_all zod next_id now commands s).versions
          ≡ s.versions ++ extra)
  run_all-appends [] s = ([], ++-[] s.versions)
  run_all-appends (c ∷ commands) s =
      let (one, e) = Evolves-appends (run-Evolves zod next_id now c s) in
      let (more, f) = run_all-appends commands (run zod next_id now c s).1 in
      (one ++ more, f ∙ ap (λ vs. vs ++ more) e ∙ ++-assoc s.versions one more)

  -- A requirement whose current version is rejected or retired keeps that version over any run of
  -- calls.
  pub terminal-stays :
      (commands : List Command) (s : Store) (id : String) (r : Requirement)
      → current id s.versions ≡ some r
      → is_terminal r.status ≡ true
      → current id (run_all zod next_id now commands s).versions ≡ some r
  terminal-stays [] s id r e t = e
  terminal-stays (c ∷ commands) s id r e t =
      terminal-stays commands (run zod next_id now c s).1 id r
        (Evolves-terminal id r (run-Evolves zod next_id now c s) e t) t
