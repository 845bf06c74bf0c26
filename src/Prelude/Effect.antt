-- ===== src/Prelude/Effect.antt =====
-- Methods that change state and may throw: what is written before a throw stays written.
use liminal_engine.Prelude.Fallible.{Result, ok, err}
use liminal_engine.Prelude.Tests.{if◌then◌else◌}
use mathlib.Core.Bool.{Bool, true, false}
use mathlib.Core.Path.{◌≡◌, refl, ap, subst}
use mathlib.Core.List.{List, [], ◌∷◌}
use liminal_engine.Prelude.Lists.{All}
use Prim.Native.String.{String}

abbrev pub Effect : Type 0 → Type 0 → Type 0
Effect S A = S → Result A × S

module _ {S : Type 0} where
  abbrev pub return : {A : Type 0} → A → Effect S A
  return a s = (ok a, s)

  abbrev pub throw : {A : Type 0} → String → Effect S A
  throw message s = (err message, s)

  -- A computation that changes no state.
  abbrev pub lift : {A : Type 0} → Result A → Effect S A
  lift r s = (r, s)

  abbrev pub gets : {A : Type 0} → (S → A) → Effect S A
  gets read s = (ok (read s), s)

  abbrev pub modify : (S → S) → Effect S (Unit {0})
  modify change s = (ok tt, change s)

  abbrev pub after : {A B : Type 0} → (A → Effect S B) → Result A × S → Result B × S
  after next (ok a, s) = next a s
  after next (err message, s) = (err message, s)

  infixl 5 ◌>>=◌ ◌>>◌
  unfoldable pub ◌>>=◌ : {A B : Type 0} → Effect S A → (A → Effect S B) → Effect S B
  ◌>>=◌ m next s = after next (m s)

  abbrev pub ◌>>◌ : {A B : Type 0} → Effect S A → Effect S B → Effect S B
  m >> next = m >>= λ _. next

  abbrev pub for_each : {A B : Type 0} → (A → Effect S B) → List A → Effect S (List B)
  for_each body [] = return []
  for_each body (x ∷ xs) = do y ← body x; ys ← for_each body xs; return (y ∷ ys)

  -- `try { ... } catch (error) { ... }`: what was thrown is a value for the rest.
  abbrev pub attempt : {A : Type 0} → Effect S A → Effect S (Result A)
  attempt m s = (ok (m s).0, (m s).1)

-- A computation that ends well had a first part that did, and its rest began where that part ended.
pub >>=-ends_ok :
    {S A B : Type 0} {b : B} {t : S} (m : Effect S A) (next : A → Effect S B) (s : S)
    → (m >>= next) s ≡ (ok b, t)
    → (a : A) × (u : S) × (m s ≡ (ok a, u)) × (next a u ≡ (ok b, t))
unfolding ◌>>=◌
>>=-ends_ok {b} {t} m next s h = step (m s) refl h
  where
    step :
        (r : Result _ × _)
        → m s ≡ r
        → after next r ≡ (ok b, t)
        → (a : _) × (u : _) × (m s ≡ (ok a, u)) × (next a u ≡ (ok b, t))
    step (ok a, u) e k = (a, u, e, k)
    step (err message, u) e k = let bad : err message ≡ ok b = ap (λ p. p.0) k in cc

-- What `m` does to the state stands in `R`, however it ends.
pub record Moves {S A : Type 0} (R : S → S → Type 0) (m : Effect S A) : Type 0 where
  pub at : (s : S) → R s (m s).1

pub Moves-ends_ok :
    {S A : Type 0} (R : S → S → Type 0) (m : Effect S A) (s t : S) (a : A)
    → Moves R m
    → m s ≡ (ok a, t)
    → R s t
Moves-ends_ok R m s t a h e = subst (λ p. R s p.1) e (h.at s)

-- What every round of a loop answers, the loop's answers are.
pub for_each-All :
    {S A B : Type 0} (P : B → Type 0) (body : A → Effect S B) (xs : List A) (s t : S) (ys : List B)
    → ((x : A) (u v : S) (y : B) → body x u ≡ (ok y, v) → P y)
    → for_each body xs s ≡ (ok ys, t)
    → All P ys
for_each-All P body [] s t ys h e =
    let same : ok [] ≡ ok ys = ap (λ p. p.0) e in let none : [] ≡ ys = cc in subst (All P) none tt
for_each-All P body (x ∷ xs) s t ys h e =
    let (y, u, first, rest) = >>=-ends_ok (body x) _ s e in
    let (zs, v, second, last) = >>=-ends_ok (for_each body xs) _ u rest in
    let same : ok (y ∷ zs) ≡ ok ys = ap (λ p. p.0) last in
    let listed : y ∷ zs ≡ ys = cc in
    subst (All P) listed (h x s u y first, for_each-All P body xs u v zs h second)

module _ {S : Type 0} (R : S → S → Type 0) (stays : (s : S) → R s s)
    (follows : (s t u : S) → R s t → R t u → R s u) where
  pub Moves->>= :
      {A B : Type 0} (m : Effect S A) (next : A → Effect S B)
      → Moves R m
      → ((a : A) → Moves R (next a))
      → Moves R (m >>= next)
  unfolding ◌>>=◌
  Moves->>= m next first rest = record { at = λ s. step s (m s) (first.at s) }
    where
      step : (s : S) → (r : Result _ × S) → R s r.1 → R s (after next r).1
      step s (ok a, t) p = follows s t _ p ((rest a).at t)
      step s (err message, t) p = p

  pub Moves-for_each :
      {A B : Type 0} (body : A → Effect S B) (xs : List A)
      → ((a : A) → Moves R (body a))
      → Moves R (for_each body xs)
  Moves-for_each body [] h = record { at = stays }
  Moves-for_each body (x ∷ xs) h =
      Moves->>= (body x) _ (h x)
        λ y. Moves->>= (for_each body xs) _ (Moves-for_each body xs h) λ ys. record { at = stays }

  pub Moves-attempt : {A : Type 0} (m : Effect S A) → Moves R m → Moves R (attempt m)
  Moves-attempt m h = record { at = λ s. h.at s }

pub Moves-if :
    {S A : Type 0} (R : S → S → Type 0) (b : Bool) (m n : Effect S A)
    → Moves R m
    → Moves R n
    → Moves R (if b then m else n)
Moves-if R true m n h k = h
Moves-if R false m n h k = k

-- A method on a part of the state.
abbrev placed : {S T A : Type 0} → (T → S → S) → S → Result A × T → Result A × S
placed put s (r, t) = (r, put t s)

abbrev pub on_part : {S T A : Type 0} → (S → T) → (T → S → S) → Effect T A → Effect S A
on_part read put m s = placed put s (m (read s))
