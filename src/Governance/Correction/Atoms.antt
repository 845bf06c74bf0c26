-- ===== src/Governance/Correction/Atoms.antt =====
-- `atomicCorrections` and the regular expressions of packages/governance/src/compile-correction.ts,
-- written out over characters.
pub mod Rounds
pub mod Separators
pub mod Splitting
use liminal_engine.Prelude.{
  ℕ, zero, suc, ◌+◌, leb, eqb, String, template, codes, length, Bool, false, not, ◌&&◌, ◌||◌,
  Option, none, some, is_some, List, [], ◌∷◌, map, filter, if◌then◌else◌,
}
use liminal_engine.Prelude.Words.{is_space, is_empty, trim_start, trim, onto_first}
use Prim.Native.Char.{code}

infixl 5 ◌>>=◌
abbrev pub ◌>>=◌ : {A B : Type 0} → Option A → (A → Option B) → Option B
none >>= next = none
some a >>= next = next a

abbrev pub else_try : {A : Type 0} → Option A → Option A → Option A
else_try none second = second
else_try (some a) second = some a

abbrev pub ascii_lower : ℕ → ℕ
ascii_lower c = if leb 65 c && leb c 90 then c + 32 else c

-- What follows the word, in either case of its letters.
unfoldable pub after_word : List ℕ → String → Option String
after_word [] s = some s
after_word (w ∷ ws) String.[] = none
after_word (w ∷ ws) (String.◌∷◌ c s) =
    let rest = after_word ws s in if eqb (ascii_lower (code c)) w then rest else none

-- What follows `\s+`.
abbrev pub after_spaces : String → Option String
after_spaces String.[] = none
after_spaces (String.◌∷◌ c s) = if is_space (code c) then some (trim_start s) else none

abbrev pub after_mark : ℕ → String → Option String
after_mark mark String.[] = none
after_mark mark (String.◌∷◌ c s) = if eqb (code c) mark then some s else none

-- `\s+and\s+ask before\s+`
abbrev pub after_and_ask : String → Option String
after_and_ask s = do
  a ← after_spaces s
  b ← after_word (codes "and") a
  c ← after_spaces b
  d ← after_word (codes "ask before") c
  after_spaces d

-- `\s+then\s+`
abbrev pub after_then : String → Option String
after_then s = do a ← after_spaces s; b ← after_word (codes "then") a; after_spaces b

-- `\.\s+`
abbrev pub after_sentence : String → Option String
after_sentence s = do a ← after_mark b'.' s; after_spaces a

-- What follows a separator that the text begins with.
unfoldable pub after_separator : String → Option String
unfolding after_word
after_separator s = else_try (after_mark b';' s) (
    else_try (after_mark 10 s)
      (else_try (after_sentence s) (else_try (after_then s) (after_and_ask s))))

-- `split(separator)`. Each round takes one character or more.
unfoldable pub split_on_fuel : ℕ → String → List String
split_on_fuel zero s = "" ∷ []
split_on_fuel (suc fuel) String.[] = "" ∷ []
split_on_fuel (suc fuel) (String.◌∷◌ c s) = elim (after_separator (String.◌∷◌ c s)) [
  | some rest ↦ "" ∷ split_on_fuel fuel rest
  | none ↦ onto_first c (split_on_fuel fuel s)
]

abbrev pub split_atoms : String → List String
split_atoms s = split_on_fuel (suc (length (codes s))) s

-- `/\s+and\s+ask before\s+/i.test(s)`
unfoldable pub asks_before : String → Bool
unfolding after_word
asks_before String.[] = false
asks_before (String.◌∷◌ c s) =
    let rest = asks_before s in is_some (after_and_ask (String.◌∷◌ c s)) || rest

abbrev as_question : String → String
as_question part = template ("ask before " ∷ trim part ∷ [])

-- The parts after the first stand for questions where the whole text asks one.
abbrev trim_parts : Bool → List String → List String
trim_parts asks [] = []
trim_parts asks (part ∷ parts) = trim part ∷ map (λ p. if asks then as_question p else trim p) parts

abbrev or_whole : String → List String → List String
or_whole whole [] = whole ∷ []
or_whole whole (part ∷ parts) = part ∷ parts

unfoldable pub atomic_corrections : String → List String
unfolding split_on_fuel asks_before after_separator
atomic_corrections correction =
    let trimmed = trim correction in
    if is_empty trimmed
    then []
    else or_whole trimmed (
        filter (λ part. not (is_empty part))
          (trim_parts (asks_before trimmed) (split_atoms trimmed)))
