-- ===== src/Prelude/Sets.antt =====
-- The JavaScript `Set` of an array of strings: each string once, in the order of first occurrence.
use Prim.Native.Nat.{ℕ, ◌≤◌, ◌<◌}
use Prim.Native.String.{String}
use mathlib.Core.Path.{◌≡◌, refl, sym, subst, ◌∙◌}
use mathlib.Core.Logic.{◌↔◌, inl, inr}
use mathlib.Core.Bool.{Bool, true, false, not, ◌&&◌}
use mathlib.Core.List.{List, [], ◌∷◌}
use native.Mathlib.Omega.{arith}
use text.Mathlib.Text.{◌==◌}
use text.Mathlib.TextEquality.{eq_iff}
use text.Mathlib.TextPositions.{eq_refl}
use liminal_engine.Prelude.Tests.{Bool-cases}
use liminal_engine.Prelude.Lists.{length, filter, any}

-- `xs.includes(x)` and `set.has(x)`
abbrev pub has : String → List String → Bool
has x xs = any (λ y. y == x) xs

abbrev pub remove : String → List String → List String
remove x xs = filter (λ y. not (y == x)) xs

-- `new Set(xs)`
abbrev pub distinct : List String → List String
distinct [] = []
distinct (x ∷ xs) = x ∷ remove x (distinct xs)

-- `new Set(xs).size`
abbrev pub size : List String → ℕ
size xs = length (distinct xs)

abbrev Unique : List String → Type 0
Unique [] = Unit
Unique (x ∷ xs) = (has x xs ≡ false) × Unique xs

pub ==-sym : (a b : String) → (a == b) ≡ false → (b == a) ≡ false
==-sym a b h = elim (Bool-cases (b == a)) [
  | inl e ↦
      let same : b ≡ a = (eq_iff b a).0 e in
      let true_too : (a == b) ≡ true = (eq_iff a b).1 (sym same) in cc
  | inr e ↦ e
]

has-remove : (z x : String) (xs : List String) → has z (remove x xs) ≡ (has z xs && not (z == x))
has-remove z x [] = refl
has-remove z x (y ∷ xs) = elim (Bool-cases (y == z)) [
  | inl e ↦
      let same : y ≡ z = (eq_iff y z).0 e in
      elim (Bool-cases (z == x)) [
        | inl f ↦
            let g : (y == x) ≡ true = subst (λ s. (s == x) ≡ true) (sym same) f in
            rw (g, has-remove z x xs, f, e) (ground arith)
        | inr f ↦
            let g : (y == x) ≡ false = subst (λ s. (s == x) ≡ false) (sym same) f in
            rw (g, e, f) refl
      ]
  | inr e ↦ elim (Bool-cases (y == x)) [
    | inl g ↦ rw (g, has-remove z x xs, e) refl
    | inr g ↦ rw (g, e, has-remove z x xs) refl
  ]
]

has-distinct : (z : String) (xs : List String) → has z (distinct xs) ≡ has z xs
has-distinct z [] = refl
has-distinct z (x ∷ xs) = elim (Bool-cases (x == z)) [
  | inl e ↦ rw e refl
  | inr e ↦ ground (arith, e, ==-sym x z e, has-remove z x (distinct xs), has-distinct z xs)
]

Unique-remove : (x : String) (xs : List String) → Unique xs → Unique (remove x xs)
Unique-remove x [] h = tt
Unique-remove x (y ∷ xs) (fresh, h) = elim (Bool-cases (y == x)) [
  | inl e ↦ rw e (Unique-remove x xs h)
  | inr e ↦ rw e (ground (arith, has-remove y x xs, fresh), Unique-remove x xs h)
]

has_not_removed : (x : String) (xs : List String) → has x (remove x xs) ≡ false
has_not_removed x xs = ground (arith, has-remove x x xs, eq_refl x)

Unique-distinct : (xs : List String) → Unique (distinct xs)
Unique-distinct [] = tt
Unique-distinct (x ∷ xs) =
    (has_not_removed x (distinct xs), Unique-remove x (distinct xs) (Unique-distinct xs))

length-remove : (x : String) (xs : List String) → length (remove x xs) ≤ length xs
length-remove x [] = omega arith
length-remove x (y ∷ xs) = ground (arith, length-remove x xs)

length-remove-has :
    (x : String) (xs : List String) → has x xs ≡ true → length (remove x xs) < length xs
length-remove-has x [] h = cc
length-remove-has x (y ∷ xs) h = ground (arith, length-remove x xs, length-remove-has x xs)

-- What does not hold `x` stays included when `x` is taken away.
kept :
    (x : String) (xs ys : List String)
    → has x xs ≡ false
    → ((z : String) → has z xs ≡ true → has z ys ≡ true)
    → (z : String) → has z xs ≡ true
    → has z (remove x ys) ≡ true
kept x xs ys fresh sub z m = elim (Bool-cases (z == x)) [
  | inl e ↦
      let same : z ≡ x = (eq_iff z x).0 e in
      let no : has z xs ≡ false = subst (λ s. has s xs ≡ false) (sym same) fresh in cc
  | inr e ↦ ground (arith, e, has-remove z x ys, sub z m)
]

length-subset :
    (xs ys : List String)
    → Unique xs
    → ((z : String) → has z xs ≡ true → has z ys ≡ true)
    → length xs ≤ length ys
length-subset [] ys u sub = omega arith
length-subset (x ∷ xs) ys (fresh, u) sub =
    let rest : length xs ≤ length (remove x ys) =
      length-subset xs (remove x ys) u (kept x xs ys fresh (λ z m. sub z (ground (arith, m)))) in
    let room : length (remove x ys) < length ys =
      length-remove-has x ys (sub x (ground (arith, eq_refl x))) in
    omega (arith, rest, room)

-- Two sets of which one holds the other have the same members exactly when they have the same size.
pub size_eq_iff :
    (xs ys : List String)
    → ((z : String) → has z xs ≡ true → has z ys ≡ true)
    → (size xs ≡ size ys) ↔ ((z : String) → has z ys ≡ true → has z xs ≡ true)
size_eq_iff xs ys sub =
    let included : (z : String) → has z (distinct xs) ≡ true → has z (distinct ys) ≡ true =
      λ z m. has-distinct z ys ∙ sub z (sym (has-distinct z xs) ∙ m) in
    (
      λ e z m. elim (Bool-cases (has z xs)) [
        | inl there ↦ there
        | inr missing ↦
            let rest : length (distinct xs) ≤ length (remove z (distinct ys)) =
              length-subset (distinct xs) (remove z (distinct ys)) (Unique-distinct xs)
                (kept z (distinct xs) (distinct ys) (has-distinct z xs ∙ missing) included) in
            let room : length (remove z (distinct ys)) < length (distinct ys) =
              length-remove-has z (distinct ys) (has-distinct z ys ∙ m) in
            absurd (omega (arith, e, rest, room))
      ],
      λ back.
          let forth : length (distinct xs) ≤ length (distinct ys) =
            length-subset (distinct xs) (distinct ys) (Unique-distinct xs) included in
          let too : length (distinct ys) ≤ length (distinct xs) =
            length-subset (distinct ys) (distinct xs) (Unique-distinct ys)
              (λ z m. has-distinct z xs ∙ back z (sym (has-distinct z ys) ∙ m)) in
          omega (arith, forth, too),
    )
