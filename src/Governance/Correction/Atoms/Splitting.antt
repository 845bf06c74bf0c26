-- ===== src/Governance/Correction/Atoms/Splitting.antt =====
-- `split` of packages/governance/src/compile-correction.ts against the separators as a relation.
use Prim.Native.Char.{Char, code}
use liminal_engine.Prelude.{
  ℕ, zero, suc, ◌<◌, String, codes, length, ◌≡◌, refl, sym, ap, ◌∙◌, ◌↔◌, true, false, eqb, Option,
  none, some, List, [], ◌∷◌, Bool-cases, Option-cases, inl, inr, ◌⊎◌, arith,
}
use liminal_engine.Prelude.Words.{is_space, onto_first}
use liminal_engine.Governance.Correction.Atoms.{
  else_try, after_word, after_spaces, after_mark, after_and_ask, after_then, after_sentence,
  after_separator, split_on_fuel, split_atoms,
}
use liminal_engine.Governance.Correction.Atoms.Rounds.{chain_some, after_separator-shrinks}
use liminal_engine.Governance.Correction.Atoms.Separators.{
  Spaces, last, more, Reads, letter, Separates, semicolon, newline, sentence_end, then_word,
  and_ask_before, after_spaces-of_Spaces, Spaces-of_after_spaces, after_word-of_Reads,
  Reads-of_after_word,
}

-- The parts between the separators, from the left: a separator that stands at the beginning is cut,
-- and a character that begins none belongs to the part.
pub data Splits : String → List String → Type 0 where
  ends : Splits "" ("" ∷ [])
  cuts :
      {s rest : String} {parts : List String}
      → Separates s rest
      → Splits rest parts
      → Splits s ("" ∷ parts)
  keeps :
      {c : Char} {s : String} {parts : List String}
      → ((rest : String) → ¬ Separates (String.◌∷◌ c s) rest)
      → Splits s parts
      → Splits (String.◌∷◌ c s) (onto_first c parts)

else_try-some :
    {A : Type 0} (first second : Option A) (a : A)
    → else_try first second ≡ some a
    → (first ≡ some a) ⊎ ((first ≡ none) × (second ≡ some a))
else_try-some none second a h = inr (refl, h)
else_try-some (some b) second a h = inl h

mark-separates :
    (mark : ℕ) (c : Char) (s rest : String)
    → after_mark mark (String.◌∷◌ c s) ≡ some rest
    → (code c ≡ mark) × (s ≡ rest)
mark-separates mark c s rest h = elim (Bool-cases (eqb (code c) mark)) [
  | inl e ↦ let found : some s ≡ some rest = rw e at h in (ground arith, cc)
  | inr e ↦ let bad : none ≡ some rest = rw e at h in cc
]

no_mark :
    (mark : ℕ) (c : Char) (s : String)
    → after_mark mark (String.◌∷◌ c s) ≡ none
    → eqb (code c) mark ≡ false
no_mark mark c s h = elim (Bool-cases (eqb (code c) mark)) [
  | inl e ↦ let bad : some s ≡ none = rw e at h in cc
  | inr e ↦ e
]

module _ (c : Char) (s rest : String) where
  sentence-Separates : after_sentence (String.◌∷◌ c s) ≡ some rest → Separates (String.◌∷◌ c s) rest
  sentence-Separates h =
      let (a, p, q) = chain_some (after_mark b'.' (String.◌∷◌ c s)) after_spaces rest h in
      let (mark, same) = mark-separates b'.' c s a p in
      sentence_end mark (Spaces-of_after_spaces s rest (ap after_spaces same ∙ q))

  then-Separates :
      eqb (code c) 10 ≡ false
      → after_then (String.◌∷◌ c s) ≡ some rest
      → Separates (String.◌∷◌ c s) rest
  then-Separates n h =
      let (a, p, h₁) = chain_some (after_spaces (String.◌∷◌ c s)) _ rest h in
      let (b, q, r) = chain_some (after_word (codes "then") a) after_spaces rest h₁ in
      then_word n (Spaces-of_after_spaces (String.◌∷◌ c s) a p)
        (Reads-of_after_word (codes "then") a b q) (Spaces-of_after_spaces b rest r)

  and_ask-Separates :
      eqb (code c) 10 ≡ false
      → after_and_ask (String.◌∷◌ c s) ≡ some rest
      → Separates (String.◌∷◌ c s) rest
  and_ask-Separates n h =
      let (a, p, h₁) = chain_some (after_spaces (String.◌∷◌ c s)) _ rest h in
      let (b, q, h₂) = chain_some (after_word (codes "and") a) _ rest h₁ in
      let (d, r, h₃) = chain_some (after_spaces b) _ rest h₂ in
      let (e, t, u) = chain_some (after_word (codes "ask before") d) after_spaces rest h₃ in
      and_ask_before n (Spaces-of_after_spaces (String.◌∷◌ c s) a p)
        (Reads-of_after_word (codes "and") a b q) (Spaces-of_after_spaces b d r)
        (Reads-of_after_word (codes "ask before") d e t) (Spaces-of_after_spaces e rest u)

  Separates-of_after_separator :
      after_separator (String.◌∷◌ c s) ≡ some rest → Separates (String.◌∷◌ c s) rest
  unfolding after_separator
  Separates-of_after_separator h =
      elim (else_try-some (after_mark b';' (String.◌∷◌ c s)) _ rest h) [
        | inl e ↦
            let (mark, same) = mark-separates b';' c s rest e in rw (sym same) (semicolon mark)
        | inr (_, h₁) ↦ elim (else_try-some (after_mark 10 (String.◌∷◌ c s)) _ rest h₁) [
          | inl e ↦ let (mark, same) = mark-separates 10 c s rest e in rw (sym same) (newline mark)
          | inr (no_line, h₂) ↦ elim (else_try-some (after_sentence (String.◌∷◌ c s)) _ rest h₂) [
            | inl e ↦ sentence-Separates e
            | inr (_, h₃) ↦ elim (else_try-some (after_then (String.◌∷◌ c s)) _ rest h₃) [
              | inl e ↦ then-Separates (no_mark 10 c s no_line) e
              | inr (_, h₄) ↦ and_ask-Separates (no_mark 10 c s no_line) h₄
            ]
          ]
        ]
      ]

-- The first character of white space is no mark but, perhaps, a newline.
Spaces-head : (c : Char) (s rest : String) → Spaces (String.◌∷◌ c s) rest → is_space (code c) ≡ true
Spaces-head c s rest (last p q) = p
Spaces-head c s rest (more p h) = p

space_no_mark : (n : ℕ) → is_space n ≡ true → (eqb n b';' ≡ false) × (eqb n b'.' ≡ false)
space_no_mark n h = (ground arith, ground arith)

-- No text reads as one word and as the other.
and_not_then : (s rest : String) → Reads (codes "and") s rest → after_word (codes "then") s ≡ none
unfolding after_word
and_not_then s rest (letter p h) = rw p refl

after_separator-of_Separates : {s rest : String} → Separates s rest → after_separator s ≡ some rest
unfolding after_separator
after_separator-of_Separates (semicolon p) = rw p refl
after_separator-of_Separates (newline p) = rw p refl
after_separator-of_Separates (sentence_end p h) = rw (p, after_spaces-of_Spaces h) refl
after_separator-of_Separates (then_word {c} {s} {a} {b} {rest} n h k l) =
    let (p, q) = space_no_mark (code c) (Spaces-head c s a h) in
    rw (p, q, n, after_spaces-of_Spaces h, after_word-of_Reads k, after_spaces-of_Spaces l) refl
after_separator-of_Separates (and_ask_before {c} {s} {a} {b} {d} {e} {rest} n h k l m o) =
    let (p, q) = space_no_mark (code c) (Spaces-head c s a h) in
    rw
      (
        p,
        q,
        n,
        after_spaces-of_Spaces h,
        and_not_then a b k,
        after_word-of_Reads k,
        after_spaces-of_Spaces l,
        after_word-of_Reads m,
        after_spaces-of_Spaces o,
      )
      refl

none-Separates :
    (c : Char) (s : String)
    → after_separator (String.◌∷◌ c s) ≡ none
    → (rest : String) → ¬ Separates (String.◌∷◌ c s) rest
none-Separates c s h rest k =
    let bad : none ≡ some rest = sym h ∙ after_separator-of_Separates k in cc

-- With more rounds than characters, the rounds make the parts.
Splits-split_on_fuel : (n : ℕ) (s : String) → length (codes s) < n → Splits s (split_on_fuel n s)
unfolding split_on_fuel
Splits-split_on_fuel zero s h = absurd (omega (arith, h))
Splits-split_on_fuel (suc n) String.[] h = ends
Splits-split_on_fuel (suc n) (String.◌∷◌ c s) h =
    elim (Option-cases (after_separator (String.◌∷◌ c s))) [
      | inl e ↦
          rw (e, split_on_fuel)
            (keeps (none-Separates c s e) (Splits-split_on_fuel n s (omega (arith, h))))
      | inr (rest, e) ↦
          let less = after_separator-shrinks (String.◌∷◌ c s) rest e in
          rw (e, split_on_fuel)
            (cuts (Separates-of_after_separator c s rest e)
              (Splits-split_on_fuel n rest (omega (arith, h, less))))
    ]

split_on_fuel-of_Splits :
    {s : String} {parts : List String}
    → Splits s parts
    → (n : ℕ) → length (codes s) < n
    → parts ≡ split_on_fuel n s
unfolding split_on_fuel
split_on_fuel-of_Splits k zero h = absurd (omega (arith, h))
split_on_fuel-of_Splits ends (suc n) h = refl
split_on_fuel-of_Splits (cuts {s = String.[]} k l) (suc n) h = elim k [ ]
split_on_fuel-of_Splits (cuts {s = String.◌∷◌ c s} {rest} k l) (suc n) h =
    let found = after_separator-of_Separates k in
    let less = after_separator-shrinks (String.◌∷◌ c s) rest found in
    rw (found, split_on_fuel)
      (ap (λ parts. "" ∷ parts) (split_on_fuel-of_Splits l n (omega (arith, h, less))))
split_on_fuel-of_Splits (keeps {c} {s} begins_none l) (suc n) h =
    elim (Option-cases (after_separator (String.◌∷◌ c s))) [
      | inl e ↦
          rw (e, split_on_fuel) (ap (onto_first c) (split_on_fuel-of_Splits l n (omega (arith, h))))
      | inr (rest, e) ↦ absurd (begins_none rest (Separates-of_after_separator c s rest e))
    ]

-- The parts of a correction are exactly those between its separators, from the left: a semicolon,
-- a newline, a full stop before white space, or one of the words then and and-ask-before, in
-- either case of its letters, between white space.
pub split_atoms_iff : (s : String) (parts : List String) → Splits s parts ↔ (parts ≡ split_atoms s)
split_atoms_iff s parts = (
  λ k. split_on_fuel-of_Splits k (suc (length (codes s))) (omega arith),
  λ e. rw e (Splits-split_on_fuel (suc (length (codes s))) s (omega arith)),
)
