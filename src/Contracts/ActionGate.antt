-- ===== src/Contracts/ActionGate.antt =====
-- packages/contracts/src/action-gate.contract.ts: the verdict on an action, and the allowance that
-- is derived from it.
use liminal_engine.Prelude.{
  String, ◌≡◌, Bool, true, false, not, Option, List, length, all, eqb, ◌&&◌, ◌||◌, arith,
}
use liminal_engine.Contracts.Zod.{non_empty, optional}

pub data GateVerdict : Type 0 where
  allow deny : GateVerdict

pub data ActionGateSource : Type 0 where
  operator policy scope default_deny : ActionGateSource

pub record ActionGate : Type 0 where
  pub id : String
  pub case_id : String
  pub action : String
  pub verdict : GateVerdict
  pub reasons : List String
  pub required_before_send : List String
  pub source : Option ActionGateSource
  pub source_rule_id : Option String

abbrev pub is_allow : GateVerdict → Bool
is_allow GateVerdict.allow = true
is_allow GateVerdict.deny = false

-- `actionGateShape`
unfoldable pub is_valid_action_gate : ActionGate → Bool
is_valid_action_gate g =
    non_empty g.id
    && non_empty g.case_id
    && non_empty g.action
    && all non_empty g.reasons
    && all non_empty g.required_before_send
    && optional non_empty g.source_rule_id
    && (is_allow g.verdict || not (eqb (length g.reasons) 0))
    && (not (is_allow g.verdict) || eqb (length g.reasons) 0)
    && (not (is_allow g.verdict) || eqb (length g.required_before_send) 0)

pub record ActionGateDecision : Type 0 where
  pub allowed : Bool
  pub reasons : List String
  pub required_before_send : List String

unfoldable pub derive_action_gate_allowed : GateVerdict → List String → List String → Bool
derive_action_gate_allowed verdict reasons required =
    is_allow verdict && eqb (length reasons) 0 && eqb (length required) 0

unfoldable pub action_gate_decision : ActionGate → ActionGateDecision
action_gate_decision g = record {
  allowed = derive_action_gate_allowed g.verdict g.reasons g.required_before_send;
  reasons = g.reasons;
  required_before_send = g.required_before_send;
}

unfoldable pub is_allowed : ActionGate → Bool
is_allowed g = is_allow g.verdict && eqb (length g.reasons) 0

-- On a gate that satisfies the contract, the two derived allowances and the persisted verdict all
-- say the same.
pub allowances_agree :
    (g : ActionGate)
    → is_valid_action_gate g ≡ true
    → (is_allowed g ≡ is_allow g.verdict) × ((action_gate_decision g).allowed ≡ is_allow g.verdict)
unfolding is_valid_action_gate derive_action_gate_allowed action_gate_decision is_allowed
allowances_agree g h = (ground (arith, h), ground (arith, h))
