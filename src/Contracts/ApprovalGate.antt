-- ===== src/Contracts/ApprovalGate.antt =====
-- packages/contracts/src/approval-gate.contract.ts: a gate that several roles must approve.
use liminal_engine.Prelude.{
  String, ◌==◌, eqb, eq_iff, eq_refl, ◌≡◌, ◌≢◌, refl, sym, subst, ◌∙◌, Bool, true, false, not,
  Option, none, some, List, [], ◌∷◌, length, filter, all, map, has, size, size_eq_iff,
  if◌then◌else◌, ◌&&◌, Bool-cases, Option-cases, inl, inr, arith,
}
use liminal_engine.Contracts.Zod.{Zod, non_empty}

pub data ApprovalStatus : Type 0 where
  pending approved rejected escalated : ApprovalStatus

pub record ApprovalRecord : Type 0 where
  pub id : String
  pub approver : String
  pub status : ApprovalStatus
  pub reasoning : Option String
  pub recorded_at : String

pub record ApprovalGate : Type 0 where
  pub id : String
  pub case_id : String
  pub deal_id : String
  pub policy_rule_id : String
  pub approval_context : String
  pub required_approvers : List String
  pub approvals : List ApprovalRecord
  pub created_at : String
  pub updated_at : String
  pub gate_keeper : String

abbrev pub is_approved : ApprovalRecord → Bool
is_approved a = elim a.status [ ApprovalStatus.approved ↦ true | _ ↦ false ]

abbrev is_blocking_status : ApprovalStatus → Bool
is_blocking_status ApprovalStatus.rejected = true
is_blocking_status ApprovalStatus.escalated = true
is_blocking_status _ = false

-- The record ends the gate at once.
abbrev pub is_blocking : ApprovalRecord → Bool
is_blocking a = is_blocking_status a.status

abbrev pub approvers : List ApprovalRecord → List String
approvers approvals = map ApprovalRecord.approver approvals

abbrev pub approved_roles : List ApprovalRecord → List String
approved_roles approvals = approvers (filter is_approved approvals)

-- `approvalGateShape`
unfoldable pub is_valid_approval_gate : Zod → ApprovalGate → Bool
is_valid_approval_gate zod g =
    non_empty g.id
    && non_empty g.case_id
    && non_empty g.deal_id
    && non_empty g.policy_rule_id
    && non_empty g.approval_context
    && all non_empty g.required_approvers
    && not (eqb (length g.required_approvers) 0)
    && all (λ a. non_empty a.id && non_empty a.approver && zod.is_datetime a.recorded_at)
        g.approvals
    && zod.is_datetime g.created_at
    && zod.is_datetime g.updated_at
    && non_empty g.gate_keeper
    && all (λ role. has role g.required_approvers) (approvers g.approvals)

-- The loop over the approvals: the status of the first that ends the gate.
unfoldable pub first_blocking : List ApprovalRecord → Option ApprovalStatus
first_blocking [] = none
first_blocking (a ∷ approvals) =
    let rest = first_blocking approvals in if is_blocking a then some a.status else rest

unfoldable status_of : List ApprovalRecord → List String → ApprovalStatus
status_of approvals required =
    if eqb (length approvals) 0 then ApprovalStatus.pending else elim (first_blocking approvals) [
      | some status ↦ status
      | none ↦
          if eqb (size (approved_roles approvals)) (size required)
          then ApprovalStatus.approved
          else ApprovalStatus.pending
    ]

unfoldable pub derive_approval_gate_status : ApprovalGate → ApprovalStatus
unfolding status_of
derive_approval_gate_status g = status_of g.approvals g.required_approvers

abbrev is_approved_status : ApprovalStatus → Bool
is_approved_status ApprovalStatus.approved = true
is_approved_status _ = false

unfoldable pub is_fully_approved : ApprovalGate → Bool
unfolding derive_approval_gate_status
is_fully_approved g = is_approved_status (derive_approval_gate_status g)

blocking_not_approved :
    (s : ApprovalStatus) → is_blocking_status s ≡ true → s ≢ ApprovalStatus.approved
blocking_not_approved ApprovalStatus.pending h e = cc
blocking_not_approved ApprovalStatus.approved h e = cc
blocking_not_approved ApprovalStatus.rejected h e = cc
blocking_not_approved ApprovalStatus.escalated h e = cc

first_blocking-some :
    (approvals : List ApprovalRecord) (status : ApprovalStatus)
    → first_blocking approvals ≡ some status
    → (all (λ a. not (is_blocking a)) approvals ≡ false) × (status ≢ ApprovalStatus.approved)
unfolding first_blocking
first_blocking-some [] status h = cc
first_blocking-some (a ∷ approvals) status h = elim (Bool-cases (is_blocking a)) [
  | inl e ↦
      let same : a.status ≡ status = ground (arith, h, e) in
      (ground (arith, e), λ f. blocking_not_approved a.status e (same ∙ f))
  | inr e ↦
      let (blocked, other) = first_blocking-some approvals status (ground (arith, h, e)) in
      (ground (arith, blocked), other)
]

first_blocking-none :
    (approvals : List ApprovalRecord)
    → first_blocking approvals ≡ none
    → all (λ a. not (is_blocking a)) approvals ≡ true
unfolding first_blocking
first_blocking-none [] h = refl
first_blocking-none (a ∷ approvals) h = ground (arith, first_blocking-none approvals)

has_of_all :
    (xs ys : List String)
    → all (λ role. has role ys) xs ≡ true
    → (z : String) → has z xs ≡ true
    → has z ys ≡ true
has_of_all [] ys h z m = cc
has_of_all (x ∷ xs) ys h z m = elim (Bool-cases (x == z)) [
  | inl e ↦
      let same : x ≡ z = (eq_iff x z).0 e in subst (λ s. has s ys ≡ true) same (ground (arith, h))
  | inr e ↦ has_of_all xs ys (ground (arith, h)) z (ground (arith, m, e))
]

all_of_has :
    (xs ys : List String)
    → ((z : String) → has z xs ≡ true → has z ys ≡ true)
    → all (λ role. has role ys) xs ≡ true
all_of_has [] ys sub = refl
all_of_has (x ∷ xs) ys sub =
    ground (
      arith,
      sub x (ground (arith, eq_refl x)),
      all_of_has xs ys (λ z m. sub z (ground (arith, m))),
    )

-- The roles that approved are among the approvers.
has-approved_roles :
    (z : String) (approvals : List ApprovalRecord)
    → has z (approved_roles approvals) ≡ true
    → has z (approvers approvals) ≡ true
has-approved_roles z [] h = h
has-approved_roles z (a ∷ approvals) h = ground (arith, has-approved_roles z approvals)

-- Equal sizes say that every required role approved.
same_size-eq :
    (approvals : List ApprovalRecord) (required : List String)
    → all (λ role. has role required) (approvers approvals) ≡ true
    → eqb (size (approved_roles approvals)) (size required)
      ≡ all (λ role. has role (approved_roles approvals)) required
same_size-eq approvals required h =
    let roles : List String = approved_roles approvals in
    let criterion : _ =
      size_eq_iff roles required
        (λ z m. has_of_all (approvers approvals) required h z (has-approved_roles z approvals m)) in
    elim (Bool-cases (all (λ role. has role roles) required)) [
      | inl e ↦ ground (arith, e, criterion.1 (has_of_all required roles e))
      | inr e ↦ elim (Bool-cases (eqb (size roles) (size required))) [
        | inl f ↦
            let covered : all (λ role. has role roles) required ≡ true =
              all_of_has required roles (criterion.0 (ground (arith, f))) in
            cc
        | inr f ↦ f ∙ sym e
      ]
    ]

nobody : (required : List String) → all (λ role. has role []) required ≡ eqb (length required) 0
nobody [] = refl
nobody (x ∷ required) = ground arith

status_of-eq :
    (approvals : List ApprovalRecord) (required : List String)
    → all (λ role. has role required) (approvers approvals) ≡ true
    → eqb (length required) 0 ≡ false
    → is_approved_status (status_of approvals required) ≡ (
        all (λ a. not (is_blocking a)) approvals
        && all (λ role. has role (approved_roles approvals)) required)
unfolding status_of
status_of-eq [] required h some_role = rw (nobody required, some_role) refl
status_of-eq (a ∷ approvals) required h some_role =
    elim (Option-cases (first_blocking (a ∷ approvals))) [
      | inl e ↦
          ground (
            arith,
            e,
            first_blocking-none (a ∷ approvals) e,
            same_size-eq (a ∷ approvals) required h,
          )
      | inr (status, e) ↦
          let (blocked, other) = first_blocking-some (a ∷ approvals) status e in
          ground (arith, e, blocked, other)
    ]

-- A gate that satisfies the contract is fully approved exactly when no approval on it rejects or
-- escalates and every required role has approved, although the code compares the sizes only.
pub is_fully_approved-eq :
    (zod : Zod) (g : ApprovalGate)
    → is_valid_approval_gate zod g ≡ true
    → is_fully_approved g ≡ (
        all (λ a. not (is_blocking a)) g.approvals
        && all (λ role. has role (approved_roles g.approvals)) g.required_approvers)
unfolding is_valid_approval_gate is_fully_approved derive_approval_gate_status
is_fully_approved-eq zod g h =
    status_of-eq g.approvals g.required_approvers (ground (arith, h)) (ground (arith, h))
