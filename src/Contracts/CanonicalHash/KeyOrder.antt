-- ===== src/Contracts/CanonicalHash/KeyOrder.antt =====
-- `stableStringify` of packages/contracts/src/canonical-hash.ts and the order in which an object's
-- keys were inserted.
use Prim.Native.Char.{Char, code}
use text.Mathlib.TextEquality.{codes_equal}
use liminal_engine.Prelude.{
  ℕ, ◌<◌, Ordering, String, codes, ◌≡◌, ◌≢◌, refl, sym, ap₂, ◌∙◌, ◌⊎◌, true, List, [], ◌∷◌, arith,
}
use liminal_engine.Prelude.Sorting.{flip, le, insert, sort, IsConsistent}
use liminal_engine.Contracts.Value.{Value, Items, Fields}
use liminal_engine.Contracts.CanonicalHash.Stringify.{
  units, compare_units, Entry, compare_keys, object_text, stable_stringify, stringify_items,
  stringify_fields,
}

-- The same value up to the order of keys, at every depth.
mutual
  pub data SameValue : Value → Value → Type 0 where
    same : (v : Value) → SameValue v v
    array : {xs ys : Items} → SameItems xs ys → SameValue (Value.array xs) (Value.array ys)
    object : {fs gs : Fields} → SameFields fs gs → SameValue (Value.object fs) (Value.object gs)

  pub data SameItems : Items → Items → Type 0 where
    nil : SameItems Items.nil Items.nil
    cons :
        {v w : Value} {xs ys : Items}
        → SameValue v w
        → SameItems xs ys
        → SameItems (Items.cons v xs) (Items.cons w ys)

  pub data SameFields : Fields → Fields → Type 0 where
    empty : SameFields Fields.empty Fields.empty
    field :
        (k : String) {v w : Value} {fs gs : Fields}
        → SameValue v w
        → SameFields fs gs
        → SameFields (Fields.field k v fs) (Fields.field k w gs)
    swap :
        (k j : String) (v w : Value) (fs : Fields)
        → k ≢ j
        → SameFields
            (Fields.field k v (Fields.field j w fs))
            (Fields.field j w (Fields.field k v fs))
    trans : {fs gs hs : Fields} → SameFields fs gs → SameFields gs hs → SameFields fs hs

compare_units-flip : (s t : List ℕ) → compare_units t s ≡ flip (compare_units s t)
compare_units-flip [] [] = refl
compare_units-flip [] (d ∷ t) = refl
compare_units-flip (c ∷ s) [] = refl
compare_units-flip (c ∷ s) (d ∷ t) = ground (arith, compare_units-flip s t)

compare_units_trans :
    (s t u : List ℕ)
    → le (compare_units s t) ≡ true
    → le (compare_units t u) ≡ true
    → le (compare_units s u) ≡ true
compare_units_trans [] t [] h k = refl
compare_units_trans [] t (e ∷ u) h k = refl
compare_units_trans (c ∷ s) [] u h k = cc
compare_units_trans (c ∷ s) (d ∷ t) [] h k = k
compare_units_trans (c ∷ s) (d ∷ t) (e ∷ u) h k = ground (arith, compare_units_trans s t u)

compare_units-eq : (s t : List ℕ) → compare_units s t ≡ Ordering.eq → s ≡ t
compare_units-eq [] [] h = refl
compare_units-eq [] (d ∷ t) h = cc
compare_units-eq (c ∷ s) [] h = cc
compare_units-eq (c ∷ s) (d ∷ t) h = ground (arith, compare_units-eq s t)

-- A character is no surrogate.
scalar_bounds : (c : Char) → (code c < 0xd800) ⊎ ((0xdfff < code c) × (code c < 0x110000))
scalar_bounds (Char.char n p) = ground arith

units_code :
    (c d : Char) (s t : List ℕ)
    → units (code c ∷ s) ≡ units (code d ∷ t)
    → (code c ≡ code d) × (units s ≡ units t)
unfolding units
units_code c d s t h = ground (arith, scalar_bounds c, scalar_bounds d)

units-ne-nil : (c : ℕ) (s : List ℕ) → units (c ∷ s) ≡ [] → ⊥
unfolding units
units-ne-nil c s h = ground arith

-- Different keys have different code units.
units_injective : (s t : String) → units (codes s) ≡ units (codes t) → s ≡ t
unfolding units
units_injective String.[] String.[] h = refl
units_injective String.[] (String.◌∷◌ d t) h = absurd (units-ne-nil (code d) (codes t) (sym h))
units_injective (String.◌∷◌ c s) String.[] h = absurd (units-ne-nil (code c) (codes s) h)
units_injective (String.◌∷◌ c s) (String.◌∷◌ d t) h =
    let (first, rest) = units_code c d (codes s) (codes t) h in
    ap₂ String.◌∷◌ (codes_equal c d (ground arith)) (units_injective s t rest)

compare_keys-IsConsistent : IsConsistent compare_keys
unfolding compare_keys
compare_keys-IsConsistent = record {
  flips = λ a b. compare_units-flip (units (codes a.0)) (units (codes b.0));
  trans = λ a b c. compare_units_trans (units (codes a.0)) (units (codes b.0)) (units (codes c.0));
}

compare_keys-ne-eq : (a b : Entry) → a.0 ≢ b.0 → compare_keys a b ≢ Ordering.eq
unfolding compare_keys
compare_keys-ne-eq (k, v) (j, w) differ e = differ (units_injective k j (compare_units-eq _ _ e))

-- Two entries with different keys are inserted in either order.
insert_comm :
    (a b : Entry) (xs : List Entry)
    → compare_keys a b ≢ Ordering.eq
    → insert compare_keys a (insert compare_keys b xs)
      ≡ insert compare_keys b (insert compare_keys a xs)
insert_comm a b [] h = ground (arith, compare_keys-IsConsistent.flips a b)
insert_comm a b (x ∷ xs) h =
    let laws = compare_keys-IsConsistent in
    ground (arith, insert_comm a b xs h, laws.flips a b, laws.trans a b x, laws.trans b a x)

sort-swap :
    (a b : Entry) (xs : List Entry)
    → a.0 ≢ b.0
    → sort compare_keys (a ∷ b ∷ xs) ≡ sort compare_keys (b ∷ a ∷ xs)
sort-swap a b xs h = insert_comm a b (sort compare_keys xs) (compare_keys-ne-eq a b h)

mutual
  unfolding stable_stringify object_text

  stable_stringify_same : {v w : Value} → SameValue v w → stable_stringify v ≡ stable_stringify w
  stable_stringify_same (same v) = refl
  stable_stringify_same (array h) = rw (stringify_items_same h)
  stable_stringify_same (object h) = rw (stringify_fields_same h)

  stringify_items_same : {xs ys : Items} → SameItems xs ys → stringify_items xs ≡ stringify_items ys
  stringify_items_same nil = refl
  stringify_items_same (cons h k) = ap₂ ◌∷◌ (stable_stringify_same h) (stringify_items_same k)

  stringify_fields_same :
      {fs gs : Fields}
      → SameFields fs gs
      → sort compare_keys (stringify_fields fs) ≡ sort compare_keys (stringify_fields gs)
  stringify_fields_same empty = refl
  stringify_fields_same (field k h r) = rw (stable_stringify_same h, stringify_fields_same r)
  stringify_fields_same (swap k j v w fs differ) =
      sort-swap (k, stable_stringify v) (j, stable_stringify w) (stringify_fields fs) differ
  stringify_fields_same (trans h k) = stringify_fields_same h ∙ stringify_fields_same k

-- Values that differ only in the order of their objects' keys, at any depth, have one canonical
-- text.
pub stable_stringify-SameValue :
    (v w : Value) → SameValue v w → stable_stringify v ≡ stable_stringify w
stable_stringify-SameValue v w h = stable_stringify_same h
