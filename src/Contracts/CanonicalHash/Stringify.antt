-- ===== src/Contracts/CanonicalHash/Stringify.antt =====
-- `stableStringify` of packages/contracts/src/canonical-hash.ts, over code points. `none` is the
-- `undefined` that `JSON.stringify` returns for `undefined`: a template literal spells it out, and
-- `join` leaves it empty.
use liminal_engine.Prelude.{
  ℕ, zero, suc, ◌+◌, ◌-◌, ◌/◌, ◌%◌, ltb, eqb, compare, Ordering, String, codes, true, false, ◌≡◌,
  refl, Option, none, some, or_else, List, [], ◌∷◌, ◌++◌, map, if◌then◌else◌,
}
use liminal_engine.Prelude.Int.{ℤ, pos, negsuc}
use liminal_engine.Prelude.Sorting.{orelse, sort}
use liminal_engine.Contracts.Value.{Value, Items, Fields}

-- The decimal digits; one round for each digit, so `n + 1` rounds are enough.
abbrev digits_on_fuel : ℕ → ℕ → List ℕ → List ℕ
digits_on_fuel zero n rest = rest
digits_on_fuel (suc f) n rest =
    let last = (b'0' + n % 10) ∷ rest in
    let more = digits_on_fuel f (n / 10) last in if ltb n 10 then last else more

unfoldable pub digits : ℕ → List ℕ
digits n = digits_on_fuel (suc n) n []

abbrev stringify_number : ℤ → List ℕ
stringify_number (pos n) = digits n
stringify_number (negsuc n) = b'-' ∷ digits (suc n)

abbrev hex_code : ℕ → ℕ
hex_code d = if ltb d 10 then b'0' + d else 87 + d

-- One character of a JSON text.
unfoldable pub quote_code : ℕ → List ℕ
quote_code c =
    if eqb c b'"'
    then b'\\' ∷ b'"' ∷ []
    else if eqb c b'\\'
    then b'\\' ∷ b'\\' ∷ []
    else if eqb c 8
    then b'\\' ∷ b'b' ∷ []
    else if eqb c 9
    then b'\\' ∷ b't' ∷ []
    else if eqb c 10
    then b'\\' ∷ b'n' ∷ []
    else if eqb c 12
    then b'\\' ∷ b'f' ∷ []
    else if eqb c 13
    then b'\\' ∷ b'r' ∷ []
    else if ltb c 32
    then b'\\' ∷ b'u' ∷ b'0' ∷ b'0' ∷ hex_code (c / 16) ∷ hex_code (c % 16) ∷ []
    else c ∷ []

abbrev quote_codes : List ℕ → List ℕ
quote_codes [] = b'"' ∷ []
quote_codes (c ∷ s) = quote_code c ++ quote_codes s

unfoldable pub quote : String → List ℕ
quote s = b'"' ∷ quote_codes (codes s)

-- The UTF-16 code units by which `sort()` orders the keys.
unfoldable pub units : List ℕ → List ℕ
units [] = []
units (c ∷ s) =
    if ltb c 0x10000
    then c ∷ units s
    else (0xd800 + (c - 0x10000) / 1024) ∷ (0xdc00 + (c - 0x10000) % 1024) ∷ units s

abbrev pub compare_units : List ℕ → List ℕ → Ordering
compare_units [] [] = Ordering.eq
compare_units [] (d ∷ t) = Ordering.lt
compare_units (c ∷ s) [] = Ordering.gt
compare_units (c ∷ s) (d ∷ t) = orelse (compare c d) (compare_units s t)

abbrev pub Entry : Type 0
Entry = String × Option (List ℕ)

unfoldable pub compare_keys : Entry → Entry → Ordering
compare_keys (k, v) (j, w) = compare_units (units (codes k)) (units (codes j))

-- `${JSON.stringify(key)}:${stableStringify(value)}`
abbrev entry_text : Entry → Option (List ℕ)
entry_text (k, v) = some (quote k ++ b':' ∷ or_else v (codes "undefined"))

abbrev join_rest : List (Option (List ℕ)) → List ℕ
join_rest [] = []
join_rest (t ∷ ts) = b',' ∷ or_else t [] ++ join_rest ts

-- `.join(",")`
abbrev join : List (Option (List ℕ)) → List ℕ
join [] = []
join (t ∷ ts) = or_else t [] ++ join_rest ts

unfoldable pub object_text : List Entry → List ℕ
object_text entries = b'{' ∷ join (map entry_text (sort compare_keys entries)) ++ b'}' ∷ []

unfoldable mutual
  pub stable_stringify : Value → Option (List ℕ)
  stable_stringify Value.undefined = none
  stable_stringify Value.null = some (codes "null")
  stable_stringify (Value.boolean true) = some (codes "true")
  stable_stringify (Value.boolean false) = some (codes "false")
  stable_stringify (Value.number n) = some (stringify_number n)
  stable_stringify (Value.string s) = some (quote s)
  stable_stringify (Value.array xs) = some (b'[' ∷ join (stringify_items xs) ++ b']' ∷ [])
  stable_stringify (Value.object fs) = some (object_text (stringify_fields fs))

  pub stringify_items : Items → List (Option (List ℕ))
  stringify_items Items.nil = []
  stringify_items (Items.cons x xs) = stable_stringify x ∷ stringify_items xs

  pub stringify_fields : Fields → List Entry
  stringify_fields Fields.empty = []
  stringify_fields (Fields.field k v fs) = (k, stable_stringify v) ∷ stringify_fields fs

sample :
    stable_stringify (
      Value.object (
        Fields.field "b" (Value.number (negsuc 11)) (
          Fields.field "a" (Value.array (Items.cons (Value.string "x\"") Items.nil)) Fields.empty)))
    ≡ some (codes "{\"a\":[\"x\\\"\"],\"b\":-12}")
unfolding stable_stringify object_text quote quote_code digits compare_keys units
sample = refl
