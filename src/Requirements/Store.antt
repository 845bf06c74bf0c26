-- ===== src/Requirements/Store.antt =====
-- packages/integrations/requirement-store/src/index.ts: an append-only log of requirement versions. A call
-- of the injected id generator or clock may throw, and its outcome depends on how often it was
-- called before.
pub mod Evolution
pub mod Lifecycle
pub mod Active
use liminal_engine.Prelude.{
  ℕ, suc, String, ◌==◌, Bool, true, false, Option, none, some, is_some, or_else, List, [], ◌∷◌,
  ◌++◌, filter, find, any, Result, ok, err, if◌then◌else◌, ◌&&◌,
}
use liminal_engine.Contracts.Zod.{Zod}
use liminal_engine.Contracts.Requirement.{RequirementStatus, Requirement}
use liminal_engine.Requirements.Port.{
  RequirementDraft, RequirementAmendment, StoreResult, value, error, missing, illegal, unavailable,
  collision, malformed, finished,
}
use liminal_engine.Contracts.Parsing.{is_valid_requirement, is_requirement_active}

pub record Store : Type 0 where
  pub versions : List Requirement
  -- how often the id generator and the clock were called
  pub minted : ℕ
  pub ticks : ℕ

abbrev pub empty_store : Store
empty_store = record { versions = []; minted = 0; ticks = 0 }

abbrev pub is_proposed : RequirementStatus → Bool
is_proposed RequirementStatus.proposed = true
is_proposed _ = false

-- `TERMINAL.has(status)`
unfoldable pub is_terminal : RequirementStatus → Bool
is_terminal RequirementStatus.rejected = true
is_terminal RequirementStatus.retired = true
is_terminal _ = false

abbrev pub has_id : String → Requirement → Bool
has_id id r = r.id == id

-- The scan from the newest end.
unfoldable pub current : String → List Requirement → Option Requirement
current id [] = none
current id (v ∷ versions) = elim (current id versions) [
  | some r ↦ some r
  | none ↦ if has_id id v then some v else none
]

-- A JavaScript `Map` from ids to versions, in the order of first insertion.
abbrev pub RequirementMap : Type 0
RequirementMap = List (String × Requirement)

-- `byId.set(id, v)`
unfoldable pub set : String → Requirement → RequirementMap → RequirementMap
set id v [] = (id, v) ∷ []
set id v ((k, w) ∷ entries) = if k == id then (k, v) ∷ entries else (k, w) ∷ set id v entries

unfoldable pub by_id : RequirementMap → List Requirement → RequirementMap
by_id entries [] = entries
by_id entries (v ∷ versions) = by_id (set v.id v entries) versions

abbrev pub values : RequirementMap → List Requirement
values [] = []
values ((k, v) ∷ entries) = v ∷ values entries

unfoldable pub active : (Requirement → Bool) → List Requirement → List Requirement
active match_of versions =
    filter (λ r. is_requirement_active r.status && match_of r) (values (by_id [] versions))

abbrev pub active_by_deal : String → List Requirement → List Requirement
active_by_deal deal_id = active (λ r. r.deal_id == deal_id)

abbrev pub active_by_goal : String → List Requirement → List Requirement
active_by_goal goal_id = active (λ r. r.goal_id == goal_id)

abbrev pub active_by_scope : String → List Requirement → List Requirement
active_by_scope surface = active (λ r. any (λ s. s == surface) r.scope)

unfoldable pub get : String → List Requirement → StoreResult Requirement
get id versions = elim (current id versions) [ none ↦ error (missing id) | some r ↦ value r ]

abbrev found : String → List Requirement → StoreResult (List Requirement)
found id [] = error (missing id)
found id (v ∷ versions) = value (v ∷ versions)

unfoldable pub history : String → List Requirement → StoreResult (List Requirement)
history id versions = found id (filter (has_id id) versions)

abbrev proposal : RequirementDraft → String → String → Requirement
proposal draft id now = record {
  id = id;
  goal_id = draft.goal_id;
  deal_id = draft.deal_id;
  text = draft.text;
  owner_role = draft.owner_role;
  severity = draft.severity;
  scope = draft.scope;
  status = RequirementStatus.proposed;
  created_by = draft.created_by;
  approved_by = none;
  evidence_refs = draft.evidence_refs;
  created_at = now;
  activated_at = none;
}

-- `{ ...current, ...definedOnly(changes) }`
unfoldable pub amended : RequirementAmendment → Requirement → Requirement
amended changes r = record r {
  text = or_else changes.text r.text;
  owner_role = or_else changes.owner_role r.owner_role;
  severity = or_else changes.severity r.severity;
  scope = or_else changes.scope r.scope;
  evidence_refs = or_else changes.evidence_refs r.evidence_refs;
}

-- The calls that change the store.
pub data Command : Type 0 where
  create : RequirementDraft → Command
  approve : String → String → Command
  reject : String → Command
  retire : String → Command
  amend : String → RequirementAmendment → Command

abbrev pub Effect : Type 0
Effect = StoreResult Requirement × Store

module _ (zod : Zod) (next_id now : ℕ → Result String) where
  -- `append`, and the store after it.
  unfoldable pub append : Requirement → Store → Effect
  append r s =
      if is_valid_requirement zod r
      then (value r, record s { versions = s.versions ++ r ∷ [] })
      else (error (malformed r.id (zod.requirement_issues r)), s)

  -- A record that carries the time of one call of the clock.
  unfoldable pub append_now : (String → Requirement) → Store → Effect
  append_now record_at s = elim (now s.ticks) [
    | err e ↦ (error (unavailable e), record s { ticks = suc s.ticks })
    | ok t ↦ append (record_at t) (record s { ticks = suc s.ticks })
  ]

  unfoldable pub run_create : RequirementDraft → Store → Effect
  run_create draft s =
      let counted : Store = record s { minted = suc s.minted } in
      elim (next_id s.minted) [
        | err e ↦ (error (unavailable e), counted)
        | ok id ↦ elim (current id s.versions) [
          | some r ↦ (error (collision id), counted)
          | none ↦ append_now (proposal draft id) counted
        ]
      ]

  unfoldable pub run_approve : String → String → Store → Effect
  run_approve id approved_by s = elim (current id s.versions) [
    | none ↦ (error (missing id), s)
    | some r ↦
        if is_proposed r.status
        then append_now
            (λ t. record r {
              status = RequirementStatus.active;
              approved_by = some approved_by;
              activated_at = some t;
            })
            s
        else (
          error (illegal id r.status RequirementStatus.active "approve" RequirementStatus.proposed),
          s,
        )
  ]

  unfoldable pub run_reject : String → Store → Effect
  run_reject id s = elim (current id s.versions) [
    | none ↦ (error (missing id), s)
    | some r ↦
        if is_proposed r.status
        then append (record r { status = RequirementStatus.rejected }) s
        else (
          error
              (illegal id r.status RequirementStatus.rejected "reject" RequirementStatus.proposed),
          s,
        )
  ]

  unfoldable pub run_retire : String → Store → Effect
  run_retire id s = elim (current id s.versions) [
    | none ↦ (error (missing id), s)
    | some r ↦
        if is_requirement_active r.status
        then append (record r { status = RequirementStatus.retired }) s
        else (
          error (illegal id r.status RequirementStatus.retired "retire" RequirementStatus.active),
          s,
        )
  ]

  unfoldable pub run_amend : String → RequirementAmendment → Store → Effect
  run_amend id changes s = elim (current id s.versions) [
    | none ↦ (error (missing id), s)
    | some r ↦
        if is_terminal r.status
        then (error (finished id r.status), s)
        else append (amended changes r) s
  ]

  unfoldable pub run : Command → Store → Effect
  unfolding run_create run_approve run_reject run_retire run_amend
  run (create draft) = run_create draft
  run (approve id approved_by) = run_approve id approved_by
  run (reject id) = run_reject id
  run (retire id) = run_retire id
  run (amend id changes) = run_amend id changes

  abbrev pub run_all : List Command → Store → Store
  run_all [] s = s
  run_all (c ∷ commands) s = run_all commands (run c s).1
