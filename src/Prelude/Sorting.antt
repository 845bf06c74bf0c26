-- ===== src/Prelude/Sorting.antt =====
-- `Array.prototype.sort` with a comparator: a stable sort, here by insertion. A comparator's
-- negative, zero and positive answers are `lt`, `eq` and `gt`; `a || b` of two answers is `orelse`.
use Prim.Native.Nat.{ℕ, compare, Ordering}
use mathlib.Core.Path.{◌≡◌}
use mathlib.Core.Bool.{Bool, true, false}
use mathlib.Core.Option.{some}
use mathlib.Core.List.{List, [], ◌∷◌}
use liminal_engine.Prelude.Lists.{head?}
use mathlib.Core.Logic.{inl, inr}
use native.Mathlib.Omega.{arith}
use liminal_engine.Prelude.Tests.{if◌then◌else◌, Bool-cases}
use liminal_engine.Prelude.Lists.{All}

abbrev pub orelse : Ordering → Ordering → Ordering
orelse Ordering.lt s = Ordering.lt
orelse Ordering.eq s = s
orelse Ordering.gt s = Ordering.gt

abbrev pub flip : Ordering → Ordering
flip Ordering.lt = Ordering.gt
flip Ordering.eq = Ordering.eq
flip Ordering.gt = Ordering.lt

-- The first argument of the comparison may stand first.
abbrev pub le : Ordering → Bool
le Ordering.lt = true
le Ordering.eq = true
le Ordering.gt = false

module _ {ℓ} {A : Type ℓ} where
  abbrev pub insert : (A → A → Ordering) → A → List A → List A
  insert cmp x [] = x ∷ []
  insert cmp x (y ∷ ys) = if le (cmp x y) then x ∷ y ∷ ys else y ∷ insert cmp x ys

  abbrev pub sort : (A → A → Ordering) → List A → List A
  sort cmp [] = []
  sort cmp (x ∷ xs) = insert cmp x (sort cmp xs)

  -- What the ECMAScript standard calls a consistent comparator.
  pub record IsConsistent (cmp : A → A → Ordering) : Type ℓ where
    pub flips : (a b : A) → cmp b a ≡ flip (cmp a b)
    pub trans : (a b c : A) → le (cmp a b) ≡ true → le (cmp b c) ≡ true → le (cmp a c) ≡ true

pub compare-IsConsistent {ℓ} :
    {A : Type ℓ} (key : A → ℕ) → IsConsistent (λ (a b : A). compare (key a) (key b))
compare-IsConsistent key = record { flips = λ a b. ground arith; trans = λ a b c h k. ground arith }

-- Sorting keeps the elements.
module _ {ℓ κ} {A : Type ℓ} (P : A → Type κ) (cmp : A → A → Ordering) where
  pub All-insert : (x : A) (ys : List A) → P x → All P ys → All P (insert cmp x ys)
  All-insert x [] p h = (p, tt)
  All-insert x (y ∷ ys) p (q, h) = elim (Bool-cases (le (cmp x y))) [
    | inl e ↦ rw e (p, (q, h))
    | inr e ↦ rw e (q, All-insert x ys p h)
  ]

  All-of_insert : (x : A) (ys : List A) → All P (insert cmp x ys) → P x × All P ys
  All-of_insert x [] h = h
  All-of_insert x (y ∷ ys) h = elim (Bool-cases (le (cmp x y))) [
    | inl e ↦ rw e at h
    | inr e ↦ let (q, k) = rw e at h in let (p, r) = All-of_insert x ys k in (p, (q, r))
  ]

  pub All-sort : (xs : List A) → All P xs → All P (sort cmp xs)
  All-sort [] h = tt
  All-sort (x ∷ xs) (p, h) = All-insert x (sort cmp xs) p (All-sort xs h)

  pub All-of_sort : (xs : List A) → All P (sort cmp xs) → All P xs
  All-of_sort [] h = tt
  All-of_sort (x ∷ xs) h = let (p, k) = All-of_insert x (sort cmp xs) h in (p, All-of_sort xs k)

-- Comparing by a second key where the first ties.
module _ {ℓ} {A : Type ℓ} {f g : A → A → Ordering} where
  orelse_trans :
      (a b c : A)
      → IsConsistent f
      → IsConsistent g
      → le (orelse (f a b) (g a b)) ≡ true
      → le (orelse (f b c) (g b c)) ≡ true
      → le (orelse (f a c) (g a c)) ≡ true
  orelse_trans a b c p q h k = ground (
    arith,
    p.flips a b,
    p.flips b c,
    p.flips a c,
    p.trans a b c,
    p.trans b c a,
    p.trans c a b,
    q.trans a b c,
  )

  pub orelse-IsConsistent :
      IsConsistent f → IsConsistent g → IsConsistent (λ (a b : A). orelse (f a b) (g a b))
  orelse-IsConsistent p q = record {
    flips = λ a b. ground (arith, p.flips a b, q.flips a b);
    trans = λ a b c. orelse_trans a b c p q;
  }

-- Comparing the other way round, `b - a`.
pub reversed-IsConsistent {ℓ} :
    {A : Type ℓ} {f : A → A → Ordering} → IsConsistent f → IsConsistent (λ (a b : A). f b a)
reversed-IsConsistent p = record {
  flips = λ a b. p.flips b a;
  trans = λ a b c h k. p.trans c b a k h;
}

-- Comparing by a key.
pub keyed-IsConsistent {ℓ κ} :
    {A : Type ℓ} {B : Type κ} {f : B → B → Ordering} (key : A → B)
    → IsConsistent f
    → IsConsistent (λ (a b : A). f (key a) (key b))
keyed-IsConsistent key p = record {
  flips = λ a b. p.flips (key a) (key b);
  trans = λ a b c. p.trans (key a) (key b) (key c);
}

module _ {ℓ} {A : Type ℓ} (cmp : A → A → Ordering) (consistent : IsConsistent cmp) where
  refl_of_IsConsistent : (a : A) → le (cmp a a) ≡ true
  refl_of_IsConsistent a = ground (arith, consistent.flips a a)

  total_of_IsConsistent : (a b : A) → le (cmp a b) ≡ false → le (cmp b a) ≡ true
  total_of_IsConsistent a b h = ground (arith, consistent.flips a b)

  -- `m` may stand before every element.
  abbrev pub AtMost : A → List A → Type 0
  AtMost m xs = All (λ x. le (cmp m x) ≡ true) xs

  abbrev pub IsSorted : List A → Type 0
  IsSorted [] = Unit
  IsSorted (x ∷ xs) = AtMost x xs × IsSorted xs

  AtMost-trans : (a b : A) (xs : List A) → le (cmp a b) ≡ true → AtMost b xs → AtMost a xs
  AtMost-trans a b [] h k = tt
  AtMost-trans a b (x ∷ xs) h (p, k) = (consistent.trans a b x h p, AtMost-trans a b xs h k)

  insert-IsSorted : (x : A) (ys : List A) → IsSorted ys → IsSorted (insert cmp x ys)
  insert-IsSorted x [] h = (tt, tt)
  insert-IsSorted x (y ∷ ys) (h, k) = elim (Bool-cases (le (cmp x y))) [
    | inl e ↦ rw e ((e, AtMost-trans x y ys e h), (h, k))
    | inr e ↦ rw e (All-insert _ cmp x ys (total_of_IsConsistent x y e) h, insert-IsSorted x ys k)
  ]

  -- With a consistent comparator the result is sorted.
  pub sort-IsSorted : (xs : List A) → IsSorted (sort cmp xs)
  sort-IsSorted [] = tt
  sort-IsSorted (x ∷ xs) = insert-IsSorted x (sort cmp xs) (sort-IsSorted xs)

  -- The first element of the result may stand before every element of the input.
  pub head?-sort-AtMost : (xs : List A) (m : A) → head? (sort cmp xs) ≡ some m → AtMost m xs
  head?-sort-AtMost xs m h = All-of_sort _ cmp xs (head-AtMost (sort cmp xs) (sort-IsSorted xs) h)
    where
      head-AtMost : (ys : List A) → IsSorted ys → head? ys ≡ some m → AtMost m ys
      head-AtMost [] k e = tt
      head-AtMost (y ∷ ys) (k, _) e =
          let same : y ≡ m = cc in (rw same (refl_of_IsConsistent m), rw same at k)
