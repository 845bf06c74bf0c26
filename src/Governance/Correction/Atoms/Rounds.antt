-- ===== src/Governance/Correction/Atoms/Rounds.antt =====
-- A separator takes at least one character of the text: the regular expression that
-- packages/governance/src/compile-correction.ts splits at.
use Prim.Native.Char.{code}
use liminal_engine.Prelude.{
  ℕ, ◌≤◌, ◌<◌, String, codes, length, ◌≡◌, refl, sym, eqb, Option, none, some, List, [], ◌∷◌,
  Bool-cases, inl, inr, arith,
}
use liminal_engine.Prelude.Words.{is_space, trim_start}
use liminal_engine.Governance.Correction.Atoms.{
  ◌>>=◌, else_try, ascii_lower, after_word, after_spaces, after_mark, after_and_ask, after_then,
  after_sentence, after_separator,
}

abbrev size : String → ℕ
size s = length (codes s)

trim_start-shrinks : (s : String) → size (trim_start s) ≤ size s
trim_start-shrinks String.[] = omega arith
trim_start-shrinks (String.◌∷◌ c s) = elim (Bool-cases (is_space (code c))) [
  | inl e ↦ rw e (omega (arith, trim_start-shrinks s))
  | inr e ↦ rw e (omega arith)
]

after_word-shrinks :
    (ws : List ℕ) (s rest : String) → after_word ws s ≡ some rest → size rest ≤ size s
unfolding after_word
after_word-shrinks [] s rest h = let same : s ≡ rest = cc in rw same (omega arith)
after_word-shrinks (w ∷ ws) String.[] rest h = cc
after_word-shrinks (w ∷ ws) (String.◌∷◌ c s) rest h =
    elim (Bool-cases (eqb (ascii_lower (code c)) w)) [
      | inl e ↦
          let further : size rest ≤ size s = after_word-shrinks ws s rest (rw e at h) in omega arith
      | inr e ↦ let bad : none ≡ some rest = rw e at h in cc
    ]

after_spaces-shrinks : (s rest : String) → after_spaces s ≡ some rest → size rest < size s
after_spaces-shrinks String.[] rest h = cc
after_spaces-shrinks (String.◌∷◌ c s) rest h = elim (Bool-cases (is_space (code c))) [
  | inl e ↦
      let found : some (trim_start s) ≡ some rest = rw e at h in
      let same : trim_start s ≡ rest = cc in rw (sym same) (omega (arith, trim_start-shrinks s))
  | inr e ↦ let bad : none ≡ some rest = rw e at h in cc
]

after_mark-shrinks :
    (mark : ℕ) (s rest : String) → after_mark mark s ≡ some rest → size rest < size s
after_mark-shrinks mark String.[] rest h = cc
after_mark-shrinks mark (String.◌∷◌ c s) rest h = elim (Bool-cases (eqb (code c) mark)) [
  | inl e ↦
      let found : some s ≡ some rest = rw e at h in
      let same : s ≡ rest = cc in rw (sym same) (omega arith)
  | inr e ↦ let bad : none ≡ some rest = rw e at h in cc
]

-- What a chain of two gives, each of them gave.
pub chain_some :
    {A B : Type 0} (first : Option A) (next : A → Option B) (b : B)
    → (first >>= next) ≡ some b
    → (a : A) × (first ≡ some a) × (next a ≡ some b)
chain_some none next b h = cc
chain_some (some a) next b h = (a, refl, h)

after_then-shrinks : (s rest : String) → after_then s ≡ some rest → size rest < size s
after_then-shrinks s rest h =
    let (a, p, h₁) = chain_some (after_spaces s) _ rest h in
    let (b, q, r) = chain_some (after_word (codes "then") a) after_spaces rest h₁ in
    omega (
      arith,
      after_spaces-shrinks s a p,
      after_word-shrinks (codes "then") a b q,
      after_spaces-shrinks b rest r,
    )

after_and_ask-shrinks : (s rest : String) → after_and_ask s ≡ some rest → size rest < size s
after_and_ask-shrinks s rest h =
    let (a, p, h₁) = chain_some (after_spaces s) _ rest h in
    let (b, q, h₂) = chain_some (after_word (codes "and") a) _ rest h₁ in
    let (c, r, h₃) = chain_some (after_spaces b) _ rest h₂ in
    let (d, t, u) = chain_some (after_word (codes "ask before") c) after_spaces rest h₃ in
    omega (
      arith,
      after_spaces-shrinks s a p,
      after_word-shrinks (codes "and") a b q,
      after_spaces-shrinks b c r,
      after_word-shrinks (codes "ask before") c d t,
      after_spaces-shrinks d rest u,
    )

after_sentence-shrinks : (s rest : String) → after_sentence s ≡ some rest → size rest < size s
after_sentence-shrinks s rest h =
    let (a, p, q) = chain_some (after_mark b'.' s) after_spaces rest h in
    omega (arith, after_mark-shrinks b'.' s a p, after_spaces-shrinks a rest q)

tried-shrinks :
    (s : String) (first second : Option String)
    → ((rest : String) → first ≡ some rest → size rest < size s)
    → ((rest : String) → second ≡ some rest → size rest < size s)
    → (rest : String) → else_try first second ≡ some rest
    → size rest < size s
tried-shrinks s none second p q rest h = q rest h
tried-shrinks s (some a) second p q rest h = p rest h

-- A separator takes at least one character.
pub after_separator-shrinks : (s rest : String) → after_separator s ≡ some rest → size rest < size s
unfolding after_separator
after_separator-shrinks s = tried-shrinks s (after_mark b';' s) _ (after_mark-shrinks b';' s) (
    tried-shrinks s (after_mark 10 s) _ (after_mark-shrinks 10 s) (
      tried-shrinks s (after_sentence s) _ (after_sentence-shrinks s)
        (tried-shrinks s (after_then s) _ (after_then-shrinks s) (after_and_ask-shrinks s))))
