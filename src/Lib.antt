-- ===== src/Lib.antt =====
-- A model of liminal-engine's governance core, written in TypeScript under packages/, and theorems
-- about it. An agent's consequential action is intercepted, judged by the policy engine against the
-- learned rules of a policy store, and let through, denied or put to an operator. What is decided is
-- appended to a hash-chained audit ledger, whose snapshots are redacted before they are sealed. A
-- correction of a deal is enforced by flipping its status, after a gate was opened that blocks the
-- downstream action. Requirements live in a store of their own, an append-only log of versions. The
-- intercept gateway composes these: it holds the actions that are asked about in a queue, and an
-- operator's verdict on one of them is audited, recorded in the proxy history, and compiled into a
-- rule that the engine reads from then on.
--
-- The files, and the code that each is about:
--   Prelude                  lists, options, results, texts, JavaScript's sets, sorting, integers
--   Contracts                packages/contracts/src: the shapes and their validation
--     .Value                   dynamic values and `readPath`
--     .Action .PolicyRule .Audit .Requirement .ActionGate .ApprovalGate   one contract each
--     .AgentOutput             what an agent reported
--     .Correction .EnforcementAction   the correction event and the evaluation case; the enforcement
--                              action
--     .Zod .Parsing            `contract.parse` of these shapes
--     .Objects                 actions and rules as dynamic values, and a rule read from one
--     .Canonical               the canonical projections of gates, requirements, actions, rules
--     .CanonicalHash           canonical-hash.ts: `stableStringify`, `sha256Hex`, `canonicalHash`
--     .Redact                  redact.ts, and redact.ts of packages/governance/src
--   Policy                   packages/policy/src
--     .Wildcard .Conditions .Engine   policy-engine.ts: `wildcardMatch`, `conditionMatches`, `decide`
--                              and `decideFromStore`; `best_matching_rule` is `bestMatchingRule`
--     .Scope                   scope.ts: `evaluateScope`
--     .Store                   packages/integrations/policy-store: `put_rule`, `update_rule` and their
--                              like in memory, `file_put_rule` and its like on the file
--     .Narrow                  narrow-policy.ts: `narrow_policy`, `combine_conditions`
--     .Escalation              escalation-metric.ts; a rate is the pair of the counts it divides
--     .Queue                   the intercept queues of packages/integrations/policy-store
--   Governance.Ledger        packages/governance/src/audit-ledger.ts: `append`, `verify_chain`,
--                              `reconstruct_case_lifecycle`
--   Governance.Enforcement   packages/governance/src enforce.ts, proxy-gate.ts, approve-enforce.ts,
--                              packages/engine-core, packages/integrations/action-gate-store
--   Governance.Journal       the ledger with the id generator and the clock that are called beside it
--   Governance.PolicyAudit   packages/governance/src/policy-audit.ts: `append_policy_verdict_audit`,
--                              `append_policy_rule_audit`, `reconstruct_policy_rule_lifecycle`
--   Governance.Correction    packages/governance/src/compile-correction.ts: .Atoms splits the words,
--                              .Wording tests them, .Scopes infers a scope, .Phrases is the phrase
--                              table, .Compiler is `compile_correction`
--   Gateway                  packages/integrations/intercept-gateway/src
--     .History .MatchReplace   history.ts and match-replace.ts
--     .State                   the gateway's state, and its helpers on store, queue, history and ledger
--     .Intercept               gateway.ts: `intercept`, `record_action_outcome` for `recordOutcome`,
--                              `repeater`
--     .Approval .Operator      gateway.ts: `compile_approval_rule`; `operator_verdict` for `forward` and
--                              `drop`, `resolve_all` for the loops of `forwardAll` and `dropAll`, and
--                              `serve_all` for a sequence of calls of the gateway's methods
--     .Growth                  relations that every method keeps
--   Requirements             packages/integrations/requirement-store, requirement-ports.ts: `run` is a
--                              call of `create`, `approve`, `reject`, `retire` or `amend`
--     .Checker                 packages/governance/src/active-requirement-checker.ts: `classify`,
--                              `check_requirements`, and the adapters of agent outputs and actions
--   Tests                    the theorems at concrete inputs
--
-- State is passed explicitly: the ledger is the list of its sealed events, a `Map` the list of its
-- entries in the order of insertion, the requirement store its log and how often the id generator and
-- the clock were called. A throw is an error value that carries the message; asynchronous calls are
-- made in the order of the source, one at a time, and no two operations overlap.
--
-- JavaScript's numbers are integers here. Texts are lists of code points without lone surrogates.
-- `localeCompare` is a parameter; where order matters it is assumed to be a consistent comparator. Of
-- the validation library, the test of a timestamp and the text of the errors are parameters. Sorting
-- is a stable insertion sort. A missing key of an object, one that it inherits included, reads as
-- `undefined`. SHA-256 works on words below 2 ^ 32. Decimal digits are produced on fuel: one round for
-- each digit, and `n + 1` rounds for the number n are enough. The parts of a correction, which the
-- source leaves to `String.split`, are cut on fuel, with one round for each character and one more,
-- which is enough since each round takes one at least. The gateway stands over the store, the queue
-- and the history in memory; a method that throws leaves the state that it had reached. The changes of
-- a text's case are parameters. The policy file is the value that its JSON text stands for.
--
-- Not modelled: the gateway's metrics and its health counts, the opening of cases and the proposals
-- from the checker's findings, remediation, the router and the evaluation library; an action named
-- like a member of `Object.prototype` in the checker; what match-and-replace writes into
-- `Object.prototype` for a path through `__proto__`, and all that is read from it afterwards; network,
-- terminal and user-interface code.
pub mod Prelude
pub mod Contracts
pub mod Policy
pub mod Governance
pub mod Requirements
pub mod Tests
pub mod Gateway
