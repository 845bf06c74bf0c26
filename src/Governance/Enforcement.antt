-- ===== src/Governance/Enforcement.antt =====
-- packages/governance/src: approving and enforcing a correction (enforce.ts, approve-enforce.ts), the
-- gate on the downstream action (proxy-gate.ts), the status machine of packages/engine-core, and the
-- in-memory stores of packages/integrations that they write to. The id generator and the clock answer
-- by how often they were called before.
pub mod Gated
use liminal_engine.Prelude.{
  ℕ, ◌+◌, String, template, ◌==◌, Bool, true, false, not, Option, none, some, List, [], ◌∷◌, ◌++◌,
  Result, ok, err, ◌>>=◌, if◌then◌else◌, ◌&&◌,
}
use liminal_engine.Contracts.Audit.{DealStatus, status_text, AuditEvent}
use liminal_engine.Contracts.EnforcementAction.{EnforcementAction}
use liminal_engine.Contracts.ActionGate.{
  GateVerdict, ActionGate, ActionGateDecision, action_gate_decision,
}

pub data GovernancePhase : Type 0 where
  observe detect correct enforce audit improve : GovernancePhase

-- `nextPhase`: what stands after the phase in GOVERNANCE_LOOP.
unfoldable pub next_phase : GovernancePhase → Option GovernancePhase
next_phase observe = some detect
next_phase detect = some correct
next_phase correct = some enforce
next_phase enforce = some audit
next_phase audit = some improve
next_phase improve = none

abbrev is_on_track : DealStatus → Bool
is_on_track DealStatus.on_track = true
is_on_track DealStatus.at_risk = false

-- `enforceCorrection` of packages/engine-core/src/deal-status.ts
unfoldable pub enforce_correction : DealStatus → Result DealStatus
enforce_correction current =
    if not (is_on_track current)
    then err (template ("nothing to enforce: deal is already " ∷ status_text current ∷ []))
    else ok DealStatus.at_risk

abbrev pub deciding_role : String
deciding_role = "VP Ops / Head of AI Transformation"

abbrev required_before_customer_update : List String
required_before_customer_update =
    "Propagate the EU data residency requirement into the Acme workstream."
    ∷ "Assign Product, Security, and Engineering owners." ∷ "Pass the EU data residency EvalCase."
    ∷ []

-- How often the id generator and the clock were called.
pub record Calls : Type 0 where
  pub ids : ℕ
  pub times : ℕ

module _ (id_at time_at : ℕ → String) where
  unfoldable pub build_enforcement :
      String → String → DealStatus → Calls → Result (EnforcementAction × AuditEvent)
  build_enforcement case_id deal_id current calls = do
    new_status ← enforce_correction current
    ok (
      record {
        id = id_at calls.ids;
        case_id = case_id;
        deal_id = deal_id;
        from_status = current;
        to_status = new_status;
        actor = deciding_role;
        enforced_at = time_at calls.times;
        action_type = none;
        target_system = none;
        payload = none;
      },
      record {
        id = id_at (calls.ids + 1);
        case_id = case_id;
        deal_id = deal_id;
        action = "correction-enforced";
        deciding_actor = deciding_role;
        previous_status = current;
        new_status = new_status;
        recorded_at = time_at (calls.times + 1);
        before_state = none;
        after_state = none;
        evidence_ids = none;
        action_ids = none;
        eval_ids = none;
        affected_systems = none;
        prev_hash = none;
      },
    )

  unfoldable pub build_gate : String → String → ℕ → ActionGate
  build_gate action case_id ids = record {
    id = id_at ids;
    case_id = case_id;
    action = action;
    verdict = GateVerdict.deny;
    reasons =
        template (
          "Open governance case " ∷ case_id
          ∷ " requires EU data residency correction before a customer-facing on-track update." ∷ [])
        ∷ [];
    required_before_send = required_before_customer_update;
    source = none;
    source_rule_id = none;
  }

-- `InMemoryActionGateStore.gate`: the map's gates in the order of insertion.
unfoldable pub put_gate : ActionGate → List ActionGate → List ActionGate
put_gate g [] = g ∷ []
put_gate g (h ∷ gates) = let rest = put_gate g gates in if h.id == g.id then g ∷ gates else h ∷ rest

-- `InMemoryActionGateStore.decisionFor`
unfoldable pub decision_for : String → List ActionGate → ActionGateDecision
decision_for action [] = record { allowed = true; reasons = []; required_before_send = [] }
decision_for action (g ∷ gates) =
    let rest = decision_for action gates in
    let decision = action_gate_decision g in
    if g.action == action && not decision.allowed then decision else rest

-- `evaluateDownstreamAction`: the store's answer, or what it throws (its message).
unfoldable pub evaluate_downstream_action : Result ActionGateDecision → ActionGateDecision
evaluate_downstream_action (ok decision) = decision
evaluate_downstream_action (err message) = record {
  allowed = false;
  reasons =
      template (
        "Gate evaluation failed closed"
        ∷ (if message == "" then "" else template (": " ∷ message ∷ []))
        ∷ "."
        ∷ [])
      ∷ [];
  required_before_send =
      "Resolve the gate evaluation failure before sending a customer-facing update." ∷ [];
}

-- What the two ports hold.
pub record Stores : Type 0 where
  pub gates : List ActionGate
  pub audits : List AuditEvent

pub record ApproveAndEnforceInput : Type 0 where
  pub case_id : String
  pub deal_id : String
  pub current_status : DealStatus
  pub gated_action : String

pub record ApproveAndEnforceResult : Type 0 where
  pub status : DealStatus
  pub enforcement : EnforcementAction
  pub audit : AuditEvent
  pub gate : ActionGate

-- The two writes in their order. Each may throw before it changes anything: `some` message.
unfoldable pub persist :
    Option String
    → Option String
    → EnforcementAction × AuditEvent
    → ActionGate
    → Stores
    → Result ApproveAndEnforceResult × Stores
persist (some thrown) audit_fails built gate s = (err thrown, s)
persist none (some thrown) built gate s = (err thrown, record s { gates = put_gate gate s.gates })
persist none none (action, audited) gate s = (
  ok (record { status = action.to_status; enforcement = action; audit = audited; gate = gate }),
  record { gates = put_gate gate s.gates; audits = s.audits ++ audited ∷ [] },
)

module _ (id_at time_at : ℕ → String) (gate_fails audit_fails : Option String) where
  unfoldable pub approve_and_enforce :
      ApproveAndEnforceInput → Calls → Stores → Result ApproveAndEnforceResult × Stores
  unfolding persist
  approve_and_enforce input calls s =
      elim (build_enforcement id_at time_at input.case_id input.deal_id input.current_status
        calls) [
          | err e ↦ (err e, s)
          | ok built ↦
              persist gate_fails audit_fails built
                (build_gate id_at time_at input.gated_action input.case_id (calls.ids + 2)) s
        ]
