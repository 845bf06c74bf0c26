-- ===== src/Gateway/MatchReplace/Writes.antt =====
-- What `writePath` and the loop of packages/integrations/intercept-gateway/src/match-replace.ts do.
use liminal_engine.Prelude.{
  String, ◌==◌, eq_iff, eq_refl, ◌≡◌, refl, ap, ◌∙◌, false, List, [], ◌∷◌, All, Bool-cases, inl,
  inr, if◌then◌else◌,
}
use liminal_engine.Contracts.Value.{Value, Fields, get, read_path}
use liminal_engine.Gateway.MatchReplace.{set, object_or_empty, write_path}

get-set : (key : String) (v : Value) (fs : Fields) → get key (set key v fs) ≡ v
unfolding set
get-set key v Fields.empty = rw (eq_refl key) refl
get-set key v (Fields.field k w fs) = elim (Bool-cases (k == key)) [
  | inl e ↦ rw (e, e) refl
  | inr e ↦ rw (e, e) (get-set key v fs)
]

get-set-other :
    (key other : String) (v : Value) (fs : Fields)
    → (key == other) ≡ false
    → get other (set key v fs) ≡ get other fs
unfolding set
get-set-other key other v Fields.empty h = rw h refl
get-set-other key other v (Fields.field k w fs) h = elim (Bool-cases (k == key)) [
  | inl e ↦ let same : k ≡ key = (eq_iff k key).0 e in rw (e, same, h) refl
  | inr e ↦ rw e (ap (λ x. if k == other then w else x) (get-set-other key other v fs h))
]

-- Another path than the written one: they part at some key.
pub data Diverges : List String → List String → Type 0 where
  here :
      {key other : String} {path others : List String}
      → (key == other) ≡ false
      → Diverges (key ∷ path) (other ∷ others)
  later :
      {key : String} {path others : List String}
      → Diverges path others
      → Diverges (key ∷ path) (key ∷ others)

abbrev IsPlain : String → Type 0
IsPlain key = (key == "__proto__") ≡ false

read_path-write_path_same :
    (key : String) (path : List String) (v : Value) (fs : Fields)
    → All IsPlain (key ∷ path)
    → read_path (Value.object (write_path fs (key ∷ path) v)) (key ∷ path) ≡ v
unfolding read_path write_path
read_path-write_path_same key [] v fs (plain, rest) = rw plain (get-set key v fs)
read_path-write_path_same key (next ∷ path) v fs (plain, rest) =
    let inner = object_or_empty (get key fs) in
    rw plain (
      ap (λ w. read_path w (next ∷ path))
        (get-set key (Value.object (write_path inner (next ∷ path) v)) fs)
      ∙ read_path-write_path_same next path v inner rest)

read_path-undefined : (path : List String) → read_path Value.undefined path ≡ Value.undefined
unfolding read_path
read_path-undefined [] = refl
read_path-undefined (key ∷ path) = refl

-- A value that is no object has nothing to be read, and neither has the object put in its place.
read_path-object_or_empty :
    (w : Value) (key : String) (path : List String)
    → read_path (Value.object (object_or_empty w)) (key ∷ path) ≡ read_path w (key ∷ path)
unfolding read_path
read_path-object_or_empty (Value.object fs) key path = refl
read_path-object_or_empty Value.undefined key path = read_path-undefined path
read_path-object_or_empty Value.null key path = read_path-undefined path
read_path-object_or_empty (Value.boolean b) key path = read_path-undefined path
read_path-object_or_empty (Value.number n) key path = read_path-undefined path
read_path-object_or_empty (Value.string s) key path = read_path-undefined path
read_path-object_or_empty (Value.array items) key path = read_path-undefined path

read_path-write_path_other :
    (path others : List String) (v : Value) (fs : Fields)
    → All IsPlain path
    → Diverges path others
    → read_path (Value.object (write_path fs path v)) others ≡ read_path (Value.object fs) others
unfolding read_path write_path
read_path-write_path_other [] others v fs plain d = elim d [ ]
read_path-write_path_other (key ∷ []) [] v fs plain d = elim d [ ]
read_path-write_path_other (key ∷ []) (_ ∷ others) v fs plain (later d) = elim d [ ]
read_path-write_path_other (key ∷ next ∷ path) [] v fs plain d = elim d [ ]
read_path-write_path_other (key ∷ next ∷ path) (_ ∷ []) v fs plain (later d) = elim d [ ]
read_path-write_path_other (key ∷ []) (other ∷ others) v fs (plain, rest) (here h) =
    rw plain (ap (λ w. read_path w others) (get-set-other key other v fs h))
read_path-write_path_other (key ∷ next ∷ path) (other ∷ others) v fs (plain, rest) (here h) =
    rw plain (
      ap (λ w. read_path w others)
        (get-set-other key other
          (Value.object (write_path (object_or_empty (get key fs)) (next ∷ path) v)) fs h))
read_path-write_path_other (key ∷ next ∷ path) (_ ∷ third ∷ others) v fs (plain, rest) (later d) =
    let inner = object_or_empty (get key fs) in
    rw plain (
      ap (λ w. read_path w (third ∷ others))
        (get-set key (Value.object (write_path inner (next ∷ path) v)) fs)
      ∙ read_path-write_path_other (next ∷ path) (third ∷ others) v inner rest d
      ∙ read_path-object_or_empty (get key fs) third others)

-- What is written at a path that is not empty and has no `__proto__` in it is read back there,
-- whatever stood there before, and along every path that parts from it at some key the same own
-- fields are read as before.
pub read_path-write_path :
    (key : String) (path : List String) (v : Value) (fs : Fields)
    → All (λ k. (k == "__proto__") ≡ false) (key ∷ path)
    → (read_path (Value.object (write_path fs (key ∷ path) v)) (key ∷ path) ≡ v)
      × ((others : List String)
          → Diverges (key ∷ path) others
          → read_path (Value.object (write_path fs (key ∷ path) v)) others
            ≡ read_path (Value.object fs) others)
read_path-write_path key path v fs plain = (
  read_path-write_path_same key path v fs plain,
  λ others d. read_path-write_path_other (key ∷ path) others v fs plain d,
)
