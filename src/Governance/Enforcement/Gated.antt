-- ===== src/Governance/Enforcement/Gated.antt =====
-- The gate store after an enforcement: packages/governance/src/approve-enforce.ts and
-- packages/integrations/action-gate-store.
use liminal_engine.Prelude.{
  ℕ, ◌+◌, String, ◌==◌, eq_refl, ◌≡◌, refl, sym, ap, ◌∙◌, ◌⊎◌, inl, inr, Bool, true, false, not,
  Option, none, some, List, [], ◌∷◌, ◌++◌, Result, ok, err, ◌&&◌, Bool-cases, Result-cases, arith,
}
use liminal_engine.Contracts.Audit.{DealStatus, AuditEvent}
use liminal_engine.Contracts.EnforcementAction.{EnforcementAction}
use liminal_engine.Contracts.ActionGate.{
  ActionGate, action_gate_decision, derive_action_gate_allowed,
}
use liminal_engine.Governance.Enforcement.{
  Calls, build_enforcement, enforce_correction, build_gate, put_gate, decision_for, Stores,
  ApproveAndEnforceInput, ApproveAndEnforceResult, persist, approve_and_enforce,
}

abbrev blocks : String → ActionGate → Bool
blocks action g = g.action == action && not (action_gate_decision g).allowed

decision_for-blocked :
    (action : String) (g : ActionGate) (gates : List ActionGate)
    → blocks action g ≡ true
    → (decision_for action (g ∷ gates)).allowed ≡ false
unfolding decision_for
decision_for-blocked action g gates h = rw h (ground (arith, h))

-- A stored gate that blocks an action is heard, whichever gates are stored with it.
decision_for-put_gate :
    (action : String) (g : ActionGate) (gates : List ActionGate)
    → blocks action g ≡ true
    → (decision_for action (put_gate g gates)).allowed ≡ false
unfolding decision_for put_gate
decision_for-put_gate action g [] h = rw h (ground (arith, h))
decision_for-put_gate action g (q ∷ gates) h = elim (Bool-cases (q.id == g.id)) [
  | inl e ↦ rw (e, h) (ground (arith, h))
  | inr e ↦ elim (Bool-cases (blocks action q)) [
    | inl f ↦ rw (e, f) (ground (arith, f))
    | inr f ↦ rw (e, f) (decision_for-put_gate action g gates h)
  ]
]

build_gate-blocks :
    (id_at time_at : ℕ → String) (action case_id : String) (ids : ℕ)
    → blocks action (build_gate id_at time_at action case_id ids) ≡ true
unfolding build_gate action_gate_decision derive_action_gate_allowed
build_gate-blocks id_at time_at action case_id ids = ground (arith, eq_refl action)

err_not_ok : {e : String} {r : ApproveAndEnforceResult} → ¬ (err e ≡ ok r)
err_not_ok h = cc

-- What an attempt may leave behind: nothing at all, or stores that block the action.
abbrev pub IsGated : String → Stores → Stores → Type 0
IsGated action before after = (after ≡ before) ⊎ ((decision_for action after.gates).allowed ≡ false)

-- A success: the deal is at risk, the audit event is recorded last, and the action is blocked.
pub record IsEnforced (action : String) (before : Stores) (r : ApproveAndEnforceResult)
    (after : Stores) : Type 0 where
  pub at_risk : r.status ≡ DealStatus.at_risk
  pub recorded : after.audits ≡ before.audits ++ r.audit ∷ []
  pub blocked : (decision_for action after.gates).allowed ≡ false

persist-IsGated :
    (gate_fails audit_fails : Option String) (action : String)
    (built : EnforcementAction × AuditEvent) (gate : ActionGate) (s : Stores)
    → blocks action gate ≡ true
    → IsGated action s (persist gate_fails audit_fails built gate s).1
unfolding persist
persist-IsGated (some e) audit_fails action built gate s h = inl refl
persist-IsGated none (some e) action built gate s h =
    inr (decision_for-put_gate action gate s.gates h)
persist-IsGated none none action built gate s h = inr (decision_for-put_gate action gate s.gates h)

persist-IsEnforced :
    (gate_fails audit_fails : Option String) (action : String)
    (built : EnforcementAction × AuditEvent) (gate : ActionGate) (s : Stores)
    (r : ApproveAndEnforceResult)
    → blocks action gate ≡ true
    → built.0.to_status ≡ DealStatus.at_risk
    → (persist gate_fails audit_fails built gate s).0 ≡ ok r
    → IsEnforced action s r (persist gate_fails audit_fails built gate s).1
unfolding persist
persist-IsEnforced (some e) audit_fails action built gate s r h risk done = cc
persist-IsEnforced none (some e) action built gate s r h risk done = cc
persist-IsEnforced none none action built gate s r h risk done = record {
  at_risk = let same : built.0.to_status ≡ r.status = cc in sym same ∙ risk;
  recorded = let same : built.1 ≡ r.audit = cc in ap (λ a. s.audits ++ a ∷ []) same;
  blocked = decision_for-put_gate action gate s.gates h;
}

module _ (id_at time_at : ℕ → String) where
  build_enforcement-at_risk :
      (case_id deal_id : String) (current : DealStatus) (calls : Calls)
      (built : EnforcementAction × AuditEvent)
      → build_enforcement id_at time_at case_id deal_id current calls ≡ ok built
      → (current ≡ DealStatus.on_track) × (built.0.to_status ≡ DealStatus.at_risk)
  unfolding build_enforcement enforce_correction
  build_enforcement-at_risk case_id deal_id DealStatus.on_track calls built h = (refl, cc)
  build_enforcement-at_risk case_id deal_id DealStatus.at_risk calls built h = cc

  module _ (gate_fails audit_fails : Option String) (input : ApproveAndEnforceInput) (calls : Calls)
      (s : Stores) where
    attempt : Result (EnforcementAction × AuditEvent)
    attempt = build_enforcement id_at time_at input.case_id input.deal_id input.current_status calls

    -- Whether both ports succeed or one of them throws before it changes anything, an attempt to
    -- enforce a correction leaves both stores as they were, or leaves the gated action blocked.
    pub approve_and_enforce-IsGated :
        IsGated input.gated_action s
          (approve_and_enforce id_at time_at gate_fails audit_fails input calls s).1
    unfolding approve_and_enforce attempt
    approve_and_enforce-IsGated = elim (Result-cases attempt) [
      | inr (e, failed) ↦ rw (approve_and_enforce, failed) (inl refl)
      | inl (built, e) ↦
          rw (approve_and_enforce, e)
            (persist-IsGated gate_fails audit_fails input.gated_action built _ s
              (build_gate-blocks id_at time_at input.gated_action input.case_id (calls.ids + 2)))
    ]

    -- Where the enforcement of a correction succeeds, the deal was on track and is at risk, its
    -- audit event stands last in the sink, and the gated action is blocked.
    pub approve_and_enforce-IsEnforced :
        (r : ApproveAndEnforceResult)
        → (approve_and_enforce id_at time_at gate_fails audit_fails input calls s).0 ≡ ok r
        → (input.current_status ≡ DealStatus.on_track)
          × IsEnforced input.gated_action s r
              (approve_and_enforce id_at time_at gate_fails audit_fails input calls s).1
    unfolding approve_and_enforce attempt
    approve_and_enforce-IsEnforced r done = elim (Result-cases attempt) [
      | inr (e, failed) ↦
          let bad : _ = rw (approve_and_enforce, failed) at done in absurd (err_not_ok bad)
      | inl (built, e) ↦
          let (before, risk) =
            build_enforcement-at_risk input.case_id input.deal_id input.current_status calls built
              e in
          (
            before,
            rw (approve_and_enforce, e)
                (persist-IsEnforced gate_fails audit_fails input.gated_action built _ s r
                  (build_gate-blocks id_at time_at input.gated_action input.case_id (calls.ids + 2))
                  risk (rw (approve_and_enforce, e) at done)),
          )
    ]
