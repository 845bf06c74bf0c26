-- ===== src/Contracts/Zod.antt =====
-- Zod is third-party code: its test of an ISO timestamp and the text of its errors are parameters.
use liminal_engine.Prelude.{String, ◌==◌, Bool, true, not, Option, none, some}
use liminal_engine.Contracts.Action.{InterceptedAction}
use liminal_engine.Contracts.PolicyRule.{ActionPolicyRule}
use liminal_engine.Contracts.Audit.{AuditEvent}
use liminal_engine.Contracts.Requirement.{Requirement}
use liminal_engine.Contracts.Correction.{CorrectionEvent, EvalCase}
use liminal_engine.Contracts.EnforcementAction.{EnforcementAction}

pub record Zod : Type 0 where
  -- `z.string().datetime()`
  pub is_datetime : String → Bool
  -- the message of the ZodError that a refused value raises
  pub action_message : InterceptedAction → String
  pub rule_message : ActionPolicyRule → String
  pub audit_message : AuditEvent → String
  pub correction_message : CorrectionEvent → String
  pub eval_case_message : EvalCase → String
  pub enforcement_message : EnforcementAction → String
  -- the issues of a refused requirement, each `path: message`, joined by `"; "`
  pub requirement_issues : Requirement → String

-- `z.string().min(1)`
abbrev pub non_empty : String → Bool
non_empty s = not (s == "")

-- `.optional()`
abbrev pub optional : (String → Bool) → Option String → Bool
optional p none = true
optional p (some s) = p s
