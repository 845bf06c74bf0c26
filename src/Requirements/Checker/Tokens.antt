-- ===== src/Requirements/Checker/Tokens.antt =====
-- The token matching of packages/governance/src/active-requirement-checker.ts.
use Prim.Native.Char.{code}
use liminal_engine.Prelude.{
  ℕ, leb, eqb, min, String, codes, template, ◌==◌, Bool, true, false, not, ◌&&◌, ◌||◌, List, [],
  ◌∷◌, filter, length, take, has, if◌then◌else◌,
}
use liminal_engine.Prelude.Words.{starts_with, onto_first}

abbrev stopwords : List String
stopwords =
    "the" ∷ "a" ∷ "an" ∷ "of" ∷ "to" ∷ "in" ∷ "on" ∷ "and" ∷ "or" ∷ "for" ∷ "be" ∷ "is" ∷ "are"
    ∷ "at" ∷ "by" ∷ "with" ∷ "within" ∷ "shall" ∷ "this" ∷ "that" ∷ "its" ∷ "their" ∷ "any" ∷ "as"
    ∷ "from" ∷ "into" ∷ "only" ∷ "not" ∷ "no" ∷ "all" ∷ "must" ∷ "each" ∷ "per" ∷ "every" ∷ "will"
    ∷ "should" ∷ "may" ∷ "remain" ∷ "remains" ∷ []

-- `[a-z0-9]`
abbrev is_token_code : ℕ → Bool
is_token_code c = (leb 97 c && leb c 122) || (leb 48 c && leb c 57)

-- The runs of such characters; some of the texts between two others are empty.
abbrev runs : String → List String
runs String.[] = "" ∷ []
runs (String.◌∷◌ c s) =
    let rest = runs s in if is_token_code (code c) then onto_first c rest else "" ∷ rest

abbrev is_salient : String → Bool
is_salient t = leb 2 (length (codes t)) && not (has t stopwords)

unfoldable pub tokenize : (String → String) → String → List String
tokenize lower input = filter is_salient (runs (lower input))

-- `a.slice(0, 5) === b.slice(0, 5)`, where both are at least as long.
abbrev same_start : List ℕ → List ℕ → Bool
same_start (c ∷ s) (d ∷ t) = eqb c d && same_start s t
same_start [] [] = true
same_start _ _ = false

unfoldable pub tokens_match : String → String → Bool
tokens_match a b =
    let least = min (length (codes a)) (length (codes b)) in
    a == b
    || (leb 5 least && same_start (take 5 (codes a)) (take 5 (codes b)))
    || (leb 4 least && (starts_with a b || starts_with b a))

-- `texts.join(" ")`
abbrev pub join : List String → String
join [] = ""
join (s ∷ []) = s
join (s ∷ t ∷ rest) = template (s ∷ " " ∷ join (t ∷ rest) ∷ [])
