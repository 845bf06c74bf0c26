-- ===== src/Prelude/Grown.antt =====
-- Lists that only gain elements at their end.
use mathlib.Core.Path.{◌≡◌, refl, ap, ◌∙◌}
use mathlib.Core.List.{List, [], ◌∷◌, ◌++◌, map}

module _ {A : Type 0} where
  pub append_nil : (xs : List A) → xs ++ [] ≡ xs
  append_nil [] = refl
  append_nil (x ∷ xs) = ap (λ ys. x ∷ ys) (append_nil xs)

  pub append_assoc : (xs ys zs : List A) → (xs ++ ys) ++ zs ≡ xs ++ (ys ++ zs)
  append_assoc [] ys zs = refl
  append_assoc (x ∷ xs) ys zs = ap (λ ws. x ∷ ws) (append_assoc xs ys zs)

  pub record IsGrown (before after : List A) : Type 0 where
    pub added : List A
    pub at_end : after ≡ before ++ added

  pub IsGrown-refl : (xs : List A) → IsGrown xs xs
  IsGrown-refl xs = record { added = []; at_end = rw (append_nil xs) refl }

  pub IsGrown-trans : (xs ys zs : List A) → IsGrown xs ys → IsGrown ys zs → IsGrown xs zs
  IsGrown-trans xs ys zs p q = record {
    added = p.added ++ q.added;
    at_end = q.at_end ∙ ap (λ l. l ++ q.added) p.at_end ∙ append_assoc xs p.added q.added;
  }

pub map-append :
    {A B : Type 0} (f : A → B) (xs ys : List A) → map f (xs ++ ys) ≡ map f xs ++ map f ys
map-append f [] ys = refl
map-append f (x ∷ xs) ys = ap (λ zs. f x ∷ zs) (map-append f xs ys)
