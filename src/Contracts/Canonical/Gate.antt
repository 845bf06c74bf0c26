-- ===== src/Contracts/Canonical/Gate.antt =====
-- A reader of the canonical projection of packages/contracts/src/action-gate.contract.ts.
use liminal_engine.Prelude.{String, ◌==◌, if◌then◌else◌, ◌≡◌, refl, ap, Option, none, some}
use liminal_engine.Contracts.Value.{Value, Fields, get}
use liminal_engine.Contracts.Audit.{optional_field}
use liminal_engine.Contracts.ActionGate.{GateVerdict, ActionGateSource, ActionGate}
use liminal_engine.Contracts.Canonical.Reading.{text_of, option_of, strings_of, strings_of-strings}
use liminal_engine.Contracts.Canonical.{verdict_text, source_text, action_gate_canonical}

abbrev verdict_of : String → GateVerdict
verdict_of s = if s == "allow" then GateVerdict.allow else GateVerdict.deny

abbrev source_of_text : String → ActionGateSource
source_of_text s =
    if s == "operator"
    then ActionGateSource.operator
    else if s == "policy"
    then ActionGateSource.policy
    else if s == "scope"
    then ActionGateSource.scope
    else ActionGateSource.default_deny

abbrev source_of : Value → Option ActionGateSource
source_of (Value.string s) = some (source_of_text s)
source_of _ = none

-- A reader of the projection.
unfoldable pub gate_of : Fields → ActionGate
gate_of fs = record {
  id = text_of (get "id" fs);
  case_id = text_of (get "case_id" fs);
  action = text_of (get "action" fs);
  verdict = verdict_of (text_of (get "verdict" fs));
  reasons = strings_of (get "reasons" fs);
  required_before_send = strings_of (get "required_before_send" fs);
  source = source_of (get "source" fs);
  source_rule_id = option_of (get "source_rule_id" fs);
}

verdict_of-text : (v : GateVerdict) → verdict_of (verdict_text v) ≡ v
verdict_of-text GateVerdict.allow = refl
verdict_of-text GateVerdict.deny = refl

source_of_text-text : (s : ActionGateSource) → source_of_text (source_text s) ≡ s
source_of_text-text ActionGateSource.operator = refl
source_of_text-text ActionGateSource.policy = refl
source_of_text-text ActionGateSource.scope = refl
source_of_text-text ActionGateSource.default_deny = refl

tail-source :
    (o : Option ActionGateSource) (p : Option String)
    → source_of (
        get "source" (
          optional_field "source"
            (λ s. Value.string (source_text s))
            o
            (optional_field "source_rule_id" Value.string p Fields.empty)))
      ≡ o
tail-source none none = refl
tail-source none (some id) = refl
tail-source (some s) p = ap some (source_of_text-text s)

tail-rule_id :
    (o : Option ActionGateSource) (p : Option String)
    → option_of (
        get "source_rule_id" (
          optional_field "source"
            (λ s. Value.string (source_text s))
            o
            (optional_field "source_rule_id" Value.string p Fields.empty)))
      ≡ p
tail-rule_id none none = refl
tail-rule_id none (some id) = refl
tail-rule_id (some s) none = refl
tail-rule_id (some s) (some id) = refl

-- An action gate can be read back from its canonical projection, so two gates with one projection
-- are one: nothing of a gate is left out of what is hashed.
pub gate_of-action_gate_canonical : (g : ActionGate) → gate_of (action_gate_canonical g) ≡ g
unfolding gate_of action_gate_canonical
gate_of-action_gate_canonical g =
    rw
      (
        verdict_of-text g.verdict,
        strings_of-strings g.reasons,
        strings_of-strings g.required_before_send,
        tail-source g.source g.source_rule_id,
        tail-rule_id g.source g.source_rule_id,
      )
      refl
