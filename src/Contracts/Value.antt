-- ===== src/Contracts/Value.antt =====
-- The dynamic values (`unknown`) that actions and audit snapshots carry. Numbers are integers; an
-- object is the list of its own fields, and a key that it lacks reads as `undefined`.
use liminal_engine.Prelude.{String, Bool, ◌==◌, if◌then◌else◌, List, [], ◌∷◌}
use liminal_engine.Prelude.Int.{ℤ}

mutual
  pub data Value : Type 0 where
    undefined : Value
    null : Value
    boolean : Bool → Value
    number : ℤ → Value
    string : String → Value
    array : Items → Value
    object : Fields → Value

  pub data Items : Type 0 where
    nil : Items
    cons : Value → Items → Items

  pub data Fields : Type 0 where
    empty : Fields
    field : String → Value → Fields → Fields

-- `record[key]`
abbrev pub get : String → Fields → Value
get key empty = undefined
get key (field k v fs) = if k == key then v else get key fs

-- `readPath` of the policy engine, the gateway and match-replace. A member that an object inherits,
-- such as `constructor` or `__proto__`, reads as `undefined` here: it is a function, an object or
-- `null`, and no caller tells these from `undefined`, since each tests for a string, a number or a
-- boolean.
unfoldable pub read_path : Value → List String → Value
read_path v [] = v
read_path (object fs) (key ∷ path) = read_path (get key fs) path
read_path _ (key ∷ path) = undefined
