-- ===== src/Governance/Correction/Atoms/Separators.antt =====
-- The separators of a correction, `/(?:;|\n|\.\s+|\s+then\s+|\s+and\s+ask before\s+)/i` of
-- packages/governance/src/compile-correction.ts, as relations on the text and what follows.
use Prim.Native.Char.{Char, code}
use liminal_engine.Prelude.{
  ℕ, String, codes, ◌≡◌, refl, sym, ap, Bool, true, false, eqb, none, some, List, [], ◌∷◌,
  Bool-cases, inl, inr, arith,
}
use liminal_engine.Prelude.Words.{is_space, trim_start}
use liminal_engine.Governance.Correction.Atoms.{ascii_lower, after_word, after_spaces}

abbrev begins_with_space : String → Bool
begins_with_space String.[] = false
begins_with_space (String.◌∷◌ c s) = is_space (code c)

-- One white space or more, as many as there are.
pub data Spaces : String → String → Type 0 where
  last :
      {c : Char} {s : String}
      → is_space (code c) ≡ true
      → begins_with_space s ≡ false
      → Spaces (String.◌∷◌ c s) s
  more :
      {c : Char} {s rest : String}
      → is_space (code c) ≡ true
      → Spaces s rest
      → Spaces (String.◌∷◌ c s) rest

-- The letters of a word, in either case.
pub data Reads : List ℕ → String → String → Type 0 where
  done : {s : String} → Reads [] s s
  letter :
      {w : ℕ} {ws : List ℕ} {c : Char} {s rest : String}
      → ascii_lower (code c) ≡ w
      → Reads ws s rest
      → Reads (w ∷ ws) (String.◌∷◌ c s) rest

-- A separator at the beginning of the text. A newline is one by itself, before it is a white space.
pub data Separates : String → String → Type 0 where
  semicolon : {c : Char} {s : String} → code c ≡ b';' → Separates (String.◌∷◌ c s) s
  newline : {c : Char} {s : String} → code c ≡ 10 → Separates (String.◌∷◌ c s) s
  sentence_end :
      {c : Char} {s rest : String} → code c ≡ b'.' → Spaces s rest → Separates (String.◌∷◌ c s) rest
  then_word :
      {c : Char} {s a b rest : String}
      → eqb (code c) 10 ≡ false
      → Spaces (String.◌∷◌ c s) a
      → Reads (codes "then") a b
      → Spaces b rest
      → Separates (String.◌∷◌ c s) rest
  and_ask_before :
      {c : Char} {s a b d e rest : String}
      → eqb (code c) 10 ≡ false
      → Spaces (String.◌∷◌ c s) a
      → Reads (codes "and") a b
      → Spaces b d
      → Reads (codes "ask before") d e
      → Spaces e rest
      → Separates (String.◌∷◌ c s) rest

-- Each of the functions on texts against its relation.
trim_start-eq : (s : String) → begins_with_space s ≡ false → trim_start s ≡ s
trim_start-eq String.[] h = refl
trim_start-eq (String.◌∷◌ c s) h = rw h refl

trim_start-of_Spaces : {s rest : String} → Spaces s rest → trim_start s ≡ rest
trim_start-of_Spaces (last {s} p q) = rw p (trim_start-eq s q)
trim_start-of_Spaces (more p h) = rw p (trim_start-of_Spaces h)

pub after_spaces-of_Spaces : {s rest : String} → Spaces s rest → after_spaces s ≡ some rest
after_spaces-of_Spaces (last {s} p q) = rw p (ap (λ t. some t) (trim_start-eq s q))
after_spaces-of_Spaces (more p h) = rw p (ap (λ t. some t) (trim_start-of_Spaces h))

Spaces-trim_start :
    (c : Char) (s : String) → is_space (code c) ≡ true → Spaces (String.◌∷◌ c s) (trim_start s)
Spaces-trim_start c String.[] p = last p refl
Spaces-trim_start c (String.◌∷◌ d s) p = elim (Bool-cases (is_space (code d))) [
  | inl e ↦ rw e (more p (Spaces-trim_start d s e))
  | inr e ↦ rw e (last p e)
]

pub Spaces-of_after_spaces : (s rest : String) → after_spaces s ≡ some rest → Spaces s rest
Spaces-of_after_spaces String.[] rest h = cc
Spaces-of_after_spaces (String.◌∷◌ c s) rest h = elim (Bool-cases (is_space (code c))) [
  | inl e ↦
      let found : some (trim_start s) ≡ some rest = rw e at h in
      let same : trim_start s ≡ rest = cc in rw (sym same) (Spaces-trim_start c s e)
  | inr e ↦ let bad : none ≡ some rest = rw e at h in cc
]

eqb_refl : (n : ℕ) → eqb n n ≡ true
eqb_refl n = ground arith

pub after_word-of_Reads :
    {ws : List ℕ} {s rest : String} → Reads ws s rest → after_word ws s ≡ some rest
unfolding after_word
after_word-of_Reads done = refl
after_word-of_Reads (letter {w} p h) = rw (p, eqb_refl w) (after_word-of_Reads h)

pub Reads-of_after_word :
    (ws : List ℕ) (s rest : String) → after_word ws s ≡ some rest → Reads ws s rest
unfolding after_word
Reads-of_after_word [] s rest h = let same : s ≡ rest = cc in rw same done
Reads-of_after_word (w ∷ ws) String.[] rest h = cc
Reads-of_after_word (w ∷ ws) (String.◌∷◌ c s) rest h =
    elim (Bool-cases (eqb (ascii_lower (code c)) w)) [
      | inl e ↦ letter (ground arith) (Reads-of_after_word ws s rest (rw e at h))
      | inr e ↦ let bad : none ≡ some rest = rw e at h in cc
    ]
