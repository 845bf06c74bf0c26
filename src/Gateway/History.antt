-- ===== src/Gateway/History.antt =====
-- packages/integrations/intercept-gateway/src/history.ts: what went through the gateway, in memory and
-- in a file. A `Map` whose keys are the entries' ids is the list of its entries in the order of
-- insertion; the file is the value that its JSON text stands for, and the copies that `cloneEntry`
-- makes are the entries themselves.
use liminal_engine.Prelude.{
  Ordering, String, template, ◌==◌, Bool, true, false, not, ◌&&◌, Option, none, some, List, [], ◌∷◌,
  ◌++◌, map, filter, find, any, all, Result, ok, err, ◌>>=◌, ◌>>◌, guard, traverse, if◌then◌else◌,
}
use liminal_engine.Prelude.Int.{ℤ}
use liminal_engine.Prelude.Sorting.{orelse, sort}
use liminal_engine.Contracts.Action.{InterceptedAction}
use liminal_engine.Contracts.PolicyRule.{Verdict}
use liminal_engine.Contracts.Zod.{Zod, non_empty, optional}
use liminal_engine.Contracts.Parsing.{parse_action}
use liminal_engine.Policy.Decision.{PolicyMode, PolicyDecision}

pub record ProxyOutcome : Type 0 where
  pub action_id : String
  pub exit_code : ℤ
  pub completed_at : String

pub record ProxyHistoryEntry : Type 0 where
  pub id : String
  pub original_action : Option InterceptedAction
  pub action : InterceptedAction
  pub decision : PolicyDecision
  pub mode : PolicyMode
  pub recorded_at : String
  pub queue_id : Option String
  pub applied_match_replace_rule_ids : Option (List String)
  pub notes : Option (List String)
  pub outcome : Option ProxyOutcome

pub record ProxyHistoryFilter : Type 0 where
  pub tool : Option String
  pub action : Option String
  pub verdict : Option Verdict
  pub in_scope_only : Option Bool

abbrev same_text : Option String → String → Bool
same_text none s = true
same_text (some t) s = s == t

abbrev same_verdict : Option Verdict → Verdict → Bool
same_verdict none v = true
same_verdict (some Verdict.allow) Verdict.allow = true
same_verdict (some Verdict.deny) Verdict.deny = true
same_verdict (some Verdict.ask) Verdict.ask = true
same_verdict (some _) _ = false

-- `value === true`
abbrev is_set : Option Bool → Bool
is_set none = false
is_set (some b) = b

-- `matchesFilter`
unfoldable pub matches_filter : ProxyHistoryFilter → ProxyHistoryEntry → Bool
matches_filter f entry =
    same_text f.tool entry.action.tool
    && same_text f.action entry.action.action
    && same_verdict f.verdict entry.decision.verdict
    && not (is_set f.in_scope_only && is_set entry.decision.out_of_scope)

abbrev pub is_entry : String → ProxyHistoryEntry → Bool
is_entry id entry = entry.id == id

abbrev pub concerns_action : String → ProxyHistoryEntry → Bool
concerns_action action_id entry = entry.action.id == action_id

abbrev recorded_twice : String → String
recorded_twice id = template ("proxy history entry " ∷ id ∷ " already exists" ∷ [])

abbrev no_entry : String → String
no_entry action_id = template ("no proxy history entry for action " ∷ action_id ∷ [])

-- `a.recordedAt.localeCompare(b.recordedAt) || a.id.localeCompare(b.id)`
abbrev pub compare_entries :
    (String → String → Ordering) → ProxyHistoryEntry → ProxyHistoryEntry → Ordering
compare_entries locale_compare a b =
    orelse (locale_compare a.recorded_at b.recorded_at) (locale_compare a.id b.id)

-- `InMemoryProxyHistory`
unfoldable pub record_entry :
    ProxyHistoryEntry → List ProxyHistoryEntry → Result (List ProxyHistoryEntry)
record_entry entry entries = do
  guard (not (any (is_entry entry.id) entries)) (recorded_twice entry.id)
  ok (entries ++ entry ∷ [])

abbrev pub settle : ProxyOutcome → ProxyHistoryEntry → ProxyHistoryEntry
settle outcome entry =
    if concerns_action outcome.action_id entry
    then record entry { outcome = some outcome }
    else entry

unfoldable pub record_outcome :
    ProxyOutcome → List ProxyHistoryEntry → Result (List ProxyHistoryEntry)
record_outcome outcome entries = do
  guard (any (concerns_action outcome.action_id) entries) (no_entry outcome.action_id)
  ok (map (settle outcome) entries)

unfoldable pub all_entries :
    (String → String → Ordering)
    → ProxyHistoryFilter
    → List ProxyHistoryEntry
    → List ProxyHistoryEntry
all_entries locale_compare f entries =
    sort (compare_entries locale_compare) (filter (matches_filter f) entries)

unfoldable pub entry_by_id : String → List ProxyHistoryEntry → Option ProxyHistoryEntry
entry_by_id id entries = find (is_entry id) entries

-- `FileProxyHistory`
pub data HistoryFile : Type 0 where
  missing : HistoryFile
  not_an_array : HistoryFile
  array : List ProxyHistoryEntry → HistoryFile

abbrev texts_or : List String → String → Result (Unit {0})
texts_or ss label =
    guard (all non_empty ss) (template (label ∷ " must be an array of non-empty strings" ∷ []))

abbrev optional_texts_or : Option (List String) → String → Result (Unit {0})
optional_texts_or none label = ok tt
optional_texts_or (some ss) label = texts_or ss label

abbrev text_or : Option String → String → Result (Unit {0})
text_or s key = guard (optional non_empty s) (template (key ∷ " must be a non-empty string" ∷ []))

-- `parseDecision`, on a decision: the tests of its texts.
unfoldable pub parse_decision : PolicyDecision → Result PolicyDecision
parse_decision d = do
  texts_or d.reasons "reasons"
  texts_or d.required_before_send "requiredBeforeSend"
  text_or d.source_rule_id "sourceRuleId"
  text_or d.scope_reason "scopeReason"
  text_or d.shadow_rule_id "shadowRuleId"
  optional_texts_or d.shadow_reasons "shadowReasons"
  ok d

module _ (zod : Zod) (is_date : String → Bool) where
  abbrev timestamp_or : String → String → Result (Unit {0})
  timestamp_or s label = guard (is_date s) (template (label ∷ " must be an ISO timestamp" ∷ []))

  -- `parseOutcome`
  unfoldable pub parse_outcome : ProxyOutcome → Result ProxyOutcome
  parse_outcome o = do
    text_or (some o.action_id) "actionId"
    timestamp_or o.completed_at "proxy outcome completedAt"
    ok o

  abbrev parse_optional : {A : Type 0} → (A → Result A) → Option A → Result (Option A)
  parse_optional parse none = ok none
  parse_optional parse (some a) = do b ← parse a; ok (some b)

  -- `parseHistoryEntry`
  unfoldable pub parse_history_entry : ProxyHistoryEntry → Result ProxyHistoryEntry
  parse_history_entry e = do
    text_or (some e.id) "id"
    original_action ← parse_optional (parse_action zod) e.original_action
    action ← parse_action zod e.action
    decision ← parse_decision e.decision
    timestamp_or e.recorded_at (template ("proxy history entry " ∷ e.id ∷ " recordedAt" ∷ []))
    text_or e.queue_id "queueId"
    optional_texts_or e.applied_match_replace_rule_ids "appliedMatchReplaceRuleIds"
    optional_texts_or e.notes "notes"
    outcome ← parse_optional parse_outcome e.outcome
    ok (record e {
      original_action = original_action;
      action = action;
      decision = decision;
      outcome = outcome;
    })

  module _ (locale_compare : String → String → Ordering) (file_name : String) where
    unfoldable pub read_entries : HistoryFile → Result (List ProxyHistoryEntry)
    read_entries missing = ok []
    read_entries not_an_array =
        err (template (file_name ∷ " must contain an array of proxy history entries" ∷ []))
    read_entries (array entries) = traverse parse_history_entry entries

    unfoldable pub write_entries : List ProxyHistoryEntry → Result HistoryFile
    write_entries entries = do
      parsed ← traverse parse_history_entry entries
      ok (array (sort (compare_entries locale_compare) parsed))

    unfoldable pub file_record : ProxyHistoryEntry → HistoryFile → Result HistoryFile
    file_record entry file = do
      parsed ← parse_history_entry entry
      entries ← read_entries file
      guard (not (any (is_entry parsed.id) entries)) (recorded_twice parsed.id)
      write_entries (entries ++ parsed ∷ [])

    abbrev settle_by_id :
        ProxyOutcome → List ProxyHistoryEntry → ProxyHistoryEntry → ProxyHistoryEntry
    settle_by_id outcome matching entry =
        if any (is_entry entry.id) matching then record entry { outcome = some outcome } else entry

    unfoldable pub file_record_outcome : ProxyOutcome → HistoryFile → Result HistoryFile
    file_record_outcome outcome file = do
      parsed ← parse_outcome outcome
      entries ← read_entries file
      let matching = filter (concerns_action parsed.action_id) entries
      guard (any (concerns_action parsed.action_id) entries) (no_entry parsed.action_id)
      write_entries (map (settle_by_id parsed matching) entries)

    unfoldable pub file_all : ProxyHistoryFilter → HistoryFile → Result (List ProxyHistoryEntry)
    file_all f file = do entries ← read_entries file; ok (all_entries locale_compare f entries)

    unfoldable pub file_entry_by_id : String → HistoryFile → Result (Option ProxyHistoryEntry)
    file_entry_by_id id file = do entries ← read_entries file; ok (entry_by_id id entries)
