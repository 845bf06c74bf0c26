-- ===== src/Policy/Queue.antt =====
-- packages/integrations/policy-store/src/index.ts: the actions that wait for an operator, in memory
-- and in a file. A `Map` whose keys are the items' ids is the list of its items in the order of
-- insertion; the file is the value that its JSON text stands for.
use liminal_engine.Prelude.{
  Ordering, String, template, ◌==◌, eq_refl, ◌≡◌, refl, ap, ap₂, subst, Bool, true, false, not,
  Option, none, some, List, [], ◌∷◌, ◌++◌, filter, find, any, Result, ok, err, ◌>>=◌, ◌>>◌,
  >>=-eq-ok, guard, traverse, Bool-cases, inl, inr, arith,
}
use liminal_engine.Prelude.Sorting.{orelse, sort}
use liminal_engine.Contracts.Action.{InterceptedAction}
use liminal_engine.Contracts.Zod.{Zod}
use liminal_engine.Contracts.Parsing.{parse_action}

pub record QueuedIntercept : Type 0 where
  pub id : String
  pub action : InterceptedAction
  pub enqueued_at : String

abbrev pub is_item : String → QueuedIntercept → Bool
is_item id item = item.id == id

abbrev queued_twice : String → String
queued_twice id = template ("intercept queue item " ∷ id ∷ " already exists" ∷ [])

-- `a.enqueuedAt.localeCompare(b.enqueuedAt) || a.id.localeCompare(b.id)`
abbrev pub compare_items :
    (String → String → Ordering) → QueuedIntercept → QueuedIntercept → Ordering
compare_items locale_compare a b =
    orelse (locale_compare a.enqueued_at b.enqueued_at) (locale_compare a.id b.id)

-- `InMemoryInterceptQueue`
unfoldable pub enqueue :
    Zod → QueuedIntercept → List QueuedIntercept → Result (List QueuedIntercept)
enqueue zod item items = do
  action ← parse_action zod item.action
  guard (not (any (is_item item.id) items)) (queued_twice item.id)
  ok (items ++ item ∷ [])

unfoldable pub pending : (String → String → Ordering) → List QueuedIntercept → List QueuedIntercept
pending locale_compare items = sort (compare_items locale_compare) items

unfoldable pub remove :
    String → List QueuedIntercept → Option QueuedIntercept × List QueuedIntercept
remove id items = (find (is_item id) items, filter (λ item. not (is_item id item)) items)

-- `FileInterceptQueue`. `Date.parse` of the host tells a timestamp.
unfoldable pub parse_queued_intercept :
    Zod → (String → Bool) → QueuedIntercept → Result QueuedIntercept
parse_queued_intercept zod is_date item = do
  guard (not (item.id == "")) "queued intercept id is required"
  guard (is_date item.enqueued_at)
      (template ("queued intercept " ∷ item.id ∷ " enqueuedAt must be an ISO timestamp" ∷ []))
  action ← parse_action zod item.action
  ok (record item { action = action })

pub data QueueFile : Type 0 where
  missing : QueueFile
  not_an_array : QueueFile
  array : List QueuedIntercept → QueueFile

module _ (zod : Zod) (is_date : String → Bool) (locale_compare : String → String → Ordering)
    (file_name : String) where
  unfoldable pub read_items : QueueFile → Result (List QueuedIntercept)
  read_items missing = ok []
  read_items not_an_array =
      err (template (file_name ∷ " must contain an array of queued intercepts" ∷ []))
  read_items (array items) = traverse (parse_queued_intercept zod is_date) items

  -- `sortQueuedIntercepts`: the copies that it makes are the items themselves.
  abbrev write_items : List QueuedIntercept → QueueFile
  write_items items = array (sort (compare_items locale_compare) items)

  unfoldable pub file_enqueue : QueuedIntercept → QueueFile → Result QueueFile
  file_enqueue item file = do
    parsed ← parse_queued_intercept zod is_date item
    items ← read_items file
    guard (not (any (is_item parsed.id) items)) (queued_twice parsed.id)
    ok (write_items (items ++ parsed ∷ []))

  unfoldable pub file_pending : QueueFile → Result (List QueuedIntercept)
  file_pending file = do items ← read_items file; ok (sort (compare_items locale_compare) items)

  abbrev without :
      String
      → QueueFile
      → List QueuedIntercept
      → Option QueuedIntercept
      → Option QueuedIntercept × QueueFile
  without id file items none = (none, file)
  without id file items (some item) =
      (some item, write_items (filter (λ other. not (is_item id other)) items))

  unfoldable pub file_remove : String → QueueFile → Result (Option QueuedIntercept × QueueFile)
  file_remove id file = do
    items ← read_items file
    ok (without id file items (find (is_item id) items))

-- A queue that took an item holds it last.
pub enqueue-eq :
    (zod : Zod) (item : QueuedIntercept) (items after : List QueuedIntercept)
    → enqueue zod item items ≡ ok after
    → after ≡ items ++ item ∷ []
unfolding enqueue
enqueue-eq zod item items after h =
    let (action, p, k) = >>=-eq-ok (parse_action zod item.action) _ h in
    let (u, q, made) = >>=-eq-ok (guard (not (any (is_item item.id) items)) _) _ k in cc

filter-absent :
    (id : String) (items : List QueuedIntercept) (item : QueuedIntercept)
    → any (is_item id) items ≡ false
    → is_item id item ≡ true
    → (find (is_item id) (items ++ item ∷ []) ≡ some item)
      × (filter (λ other. not (is_item id other)) (items ++ item ∷ []) ≡ items)
filter-absent id [] item h own = (rw own refl, rw own refl)
filter-absent id (q ∷ items) item h own =
    let other : is_item id q ≡ false = ground (arith, h) in
    let (found, rest) = filter-absent id items item (ground (arith, h, other)) own in
    (rw other found, rw other (ap (λ qs. q ∷ qs) rest))

-- Removing an item that was just queued returns it and leaves the queue as it was before.
remove-enqueue :
    (zod : Zod) (item : QueuedIntercept) (items after : List QueuedIntercept)
    → enqueue zod item items ≡ ok after
    → remove item.id after ≡ (some item, items)
unfolding enqueue remove
remove-enqueue zod item items after h =
    let (action, p, h₁) = >>=-eq-ok (parse_action zod item.action) _ h in
    elim (Bool-cases (any (is_item item.id) items)) [
      | inl taken ↦ let bad : err (queued_twice item.id) ≡ ok after = rw taken at h₁ in cc
      | inr free ↦
          let made : ok (items ++ item ∷ []) ≡ ok after = rw free at h₁ in
          let same : items ++ item ∷ [] ≡ after = cc in
          let (found, rest) = filter-absent item.id items item free (eq_refl item.id) in
          subst (λ queue. remove item.id queue ≡ (some item, items)) same
            (ap₂ (λ a b. (a, b)) found rest)
    ]
