-- ===== src/Governance/Correction/Wording.antt =====
-- The tests on an atom of packages/governance/src/compile-correction.ts: `isVague` and
-- `mentionsRejection`.
use liminal_engine.Prelude.{
  ℕ, suc, ltb, leb, eqb, String, codes, ◌==◌, Bool, true, false, not, ◌&&◌, ◌||◌, Option, none,
  some, List, [], ◌∷◌, any, if◌then◌else◌,
}
use liminal_engine.Prelude.Words.{is_space, is_digit, contains}
use liminal_engine.Governance.Correction.Atoms.{◌>>=◌}
use Prim.Native.Char.{code}

-- `split(/\s+/).length`, after a white space or not.
abbrev count_words : Bool → String → ℕ
count_words after String.[] = 1
count_words after (String.◌∷◌ c s) =
    let spaced = count_words true s in
    let plain = count_words false s in
    if is_space (code c) then (if after then spaced else suc spaced) else plain

abbrev pub vague_phrases : List String
vague_phrases =
    "fix" ∷ "fix it" ∷ "do better" ∷ "be careful" ∷ "handle this" ∷ "make it right" ∷ "use judgment"
    ∷ []

unfoldable pub is_vague : String → Bool
is_vague normalized =
    ltb (count_words false normalized) 3 || any (λ phrase. normalized == phrase) vague_phrases

abbrev is_word_code : ℕ → Bool
is_word_code c = is_digit c || (leb 65 c && leb c 90) || (leb 97 c && leb c 122) || eqb c b'_'

abbrev begins_word : List ℕ → Bool
begins_word [] = false
begins_word (c ∷ s) = is_word_code c

abbrev pub strip : List ℕ → List ℕ → Option (List ℕ)
strip [] s = some s
strip (w ∷ ws) [] = none
strip (w ∷ ws) (c ∷ s) = let rest = strip ws s in if eqb c w then rest else none

-- A word ends here.
abbrev is_boundary : Option (List ℕ) → Bool
is_boundary none = false
is_boundary (some s) = not (begins_word s)

abbrev rejection_endings : List String
rejection_endings = "" ∷ "s" ∷ "ed" ∷ "ing" ∷ "ion" ∷ "ions" ∷ []

-- The text begins with a form of `reject` that ends there.
abbrev begins_rejection : List ℕ → Bool
begins_rejection s =
    any (λ ending. is_boundary (do tail ← strip (codes "reject") s; strip (codes ending) tail))
      rejection_endings

-- `/\breject(?:s|ed|ing|ion|ions)?\b/`, after a word's character or not.
abbrev has_rejection : Bool → List ℕ → Bool
has_rejection after [] = false
has_rejection after (c ∷ s) =
    let rest = has_rejection (is_word_code c) s in (not after && begins_rejection (c ∷ s)) || rest

unfoldable pub mentions_rejection : String → Bool
mentions_rejection normalized =
    has_rejection false (codes normalized)
    || contains normalized "changes requested"
    || contains normalized "requested changes"
