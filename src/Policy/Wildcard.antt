-- ===== src/Policy/Wildcard.antt =====
-- `wildcardMatch` of packages/policy/src/policy-engine.ts, scope.ts and match-replace.ts. The
-- source escapes the pattern, puts `.*` for each star and tests a `RegExp`; here the match of that
-- expression is written out over code points.
use liminal_engine.Prelude.{
  ℕ, eqb, String, codes, ◌≡◌, ◌≢◌, refl, ◌↔◌, Bool, true, false, not, ◌&&◌, ◌||◌, List, [], ◌∷◌,
  ◌++◌, All, if◌then◌else◌, arith, Bool-cases, inl, inr, ap,
}

-- What `.` matches: anything but a line terminator.
abbrev pub is_dot : ℕ → Bool
is_dot c = not (eqb c 10 || eqb c 13 || eqb c 0x2028 || eqb c 0x2029)

-- `.*` before the rest of the expression.
unfoldable pub match_star : (List ℕ → Bool) → List ℕ → Bool
match_star rest [] = rest []
match_star rest (c ∷ s) = rest (c ∷ s) || (is_dot c && match_star rest s)

abbrev match_literal : ℕ → (List ℕ → Bool) → List ℕ → Bool
match_literal p rest [] = false
match_literal p rest (c ∷ s) = eqb c p && rest s

abbrev match_end : List ℕ → Bool
match_end [] = true
match_end (c ∷ s) = false

unfoldable pub match_codes : List ℕ → List ℕ → Bool
unfolding match_star
match_codes [] s = match_end s
match_codes (p ∷ ps) s =
    if eqb p b'*' then match_star (match_codes ps) s else match_literal p (match_codes ps) s

unfoldable pub wildcard_match : String → String → Bool
unfolding match_codes
wildcard_match pattern value = match_codes (codes pattern) (codes value)

-- When a value fits a pattern: a star stands for a run with no line terminator, any other
-- character for itself.
pub data Matches : List ℕ → List ℕ → Type 0 where
  done : Matches [] []
  literal : {p c : ℕ} {ps s : List ℕ} → p ≢ b'*' → c ≡ p → Matches ps s → Matches (p ∷ ps) (c ∷ s)
  star :
      {p : ℕ} {ps s : List ℕ} (run rest : List ℕ)
      → p ≡ b'*'
      → All (λ c. is_dot c ≡ true) run
      → s ≡ run ++ rest
      → Matches ps rest
      → Matches (p ∷ ps) s

-- A star's run grows by one character to the left.
extend :
    (p : ℕ) (ps : List ℕ) (c : ℕ) (s : List ℕ)
    → (is_dot c ≡ true) × (p ≡ b'*')
    → Matches (p ∷ ps) s
    → Matches (p ∷ ps) (c ∷ s)
extend p ps c s (dot, e) (literal plain _ _) = absurd (plain e)
extend p ps c s (dot, e) (star run rest _ dots split m) =
    star (c ∷ run) rest e (dot, dots) (ap (λ t. c ∷ t) split) m

from_literal :
    {p : ℕ} {ps : List ℕ}
    → ((s : List ℕ) → match_codes ps s ≡ true → Matches ps s)
    → eqb p b'*' ≡ false
    → (s : List ℕ) → match_literal p (match_codes ps) s ≡ true
    → Matches (p ∷ ps) s
from_literal ih plain [] h = cc
from_literal ih plain (c ∷ s) h = literal (ground arith) (ground arith) (ih s (ground arith))

match_star_sound :
    (p : ℕ) (ps : List ℕ)
    → p ≡ b'*'
    → ((s : List ℕ) → match_codes ps s ≡ true → Matches ps s)
    → (s : List ℕ) → match_star (match_codes ps) s ≡ true
    → Matches (p ∷ ps) s
unfolding match_star
match_star_sound p ps e ih [] h = star [] [] e tt refl (ih [] h)
match_star_sound p ps e ih (c ∷ s) h = elim (Bool-cases (match_codes ps (c ∷ s))) [
  | inl here ↦ star [] (c ∷ s) e tt refl (ih (c ∷ s) here)
  | inr later ↦ extend p ps c s (ground arith) (match_star_sound p ps e ih s (ground arith))
]

match_codes_sound : (ps s : List ℕ) → match_codes ps s ≡ true → Matches ps s
unfolding match_codes
match_codes_sound [] [] h = done
match_codes_sound [] (c ∷ s) h = cc
match_codes_sound (p ∷ ps) s h = elim (Bool-cases (eqb p b'*')) [
  | inl wild ↦ match_star_sound p ps (ground arith) (match_codes_sound ps) s (rw wild at h)
  | inr plain ↦ from_literal (match_codes_sound ps) plain s (rw plain at h)
]

match_star_complete :
    (k : List ℕ → Bool) (run rest : List ℕ)
    → All (λ c. is_dot c ≡ true) run
    → k rest ≡ true
    → match_star k (run ++ rest) ≡ true
unfolding match_star
match_star_complete k [] [] _ h = h
match_star_complete k [] (c ∷ s) _ h = rw h
match_star_complete k (c ∷ run) rest (dot, dots) h =
    ground (arith, match_star_complete k run rest dots h)

match_codes_complete : {ps s : List ℕ} → Matches ps s → match_codes ps s ≡ true
unfolding match_codes
match_codes_complete done = refl
match_codes_complete (literal {p} {c} plain same m) = ground (arith, match_codes_complete m)
match_codes_complete (star {p} {ps} run rest wild dots split m) =
    rw split
      (ground (arith, match_star_complete (match_codes ps) run rest dots (match_codes_complete m)))

-- The wildcard test accepts exactly the values that fit the pattern: a star stands for a run with
-- no line terminator, any other character for itself.
pub wildcard_match_iff :
    (pattern value : String)
    → (wildcard_match pattern value ≡ true) ↔ Matches (codes pattern) (codes value)
unfolding wildcard_match
wildcard_match_iff pattern value =
    (match_codes_sound (codes pattern) (codes value), match_codes_complete)
