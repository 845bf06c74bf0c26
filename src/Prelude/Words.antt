-- ===== src/Prelude/Words.antt =====
-- Texts cut and cleaned: `trim`, `split`, `startsWith` and the white space of a `RegExp`.
use Prim.Native.Nat.{ℕ}
use Prim.Native.Char.{Char, code}
use Prim.Native.String.{String}
use mathlib.Core.Bool.{Bool, true, false, ◌&&◌, ◌||◌}
use mathlib.Core.List.{List, [], ◌∷◌}
use liminal_engine.Prelude.Tests.{eqb, leb, if◌then◌else◌}
use liminal_engine.Prelude.Text.{codes, is_prefix, includes}

-- What `\s` matches and `trim` drops.
abbrev pub is_space : ℕ → Bool
is_space c =
    (leb 9 c && leb c 13)
    || eqb c 32
    || eqb c 160
    || eqb c 0x1680
    || (leb 0x2000 c && leb c 0x200a)
    || eqb c 0x2028
    || eqb c 0x2029
    || eqb c 0x202f
    || eqb c 0x205f
    || eqb c 0x3000
    || eqb c 0xfeff

abbrev pub is_digit : ℕ → Bool
is_digit c = leb 48 c && leb c 57

abbrev pub is_empty : String → Bool
is_empty String.[] = true
is_empty (String.◌∷◌ c s) = false

abbrev pub trim_start : String → String
trim_start String.[] = ""
trim_start (String.◌∷◌ c s) =
    let rest = trim_start s in if is_space (code c) then rest else String.◌∷◌ c s

-- The text without the characters at its end that pass the test.
abbrev pub drop_end : (ℕ → Bool) → String → String
drop_end p String.[] = ""
drop_end p (String.◌∷◌ c s) =
    let rest = drop_end p s in if is_empty rest && p (code c) then "" else String.◌∷◌ c rest

abbrev pub trim : String → String
trim s = drop_end is_space (trim_start s)

-- `s.startsWith(t)` and `s.includes(t)`, the text searched first.
abbrev pub starts_with : String → String → Bool
starts_with s t = is_prefix (codes t) (codes s)

abbrev pub contains : String → String → Bool
contains s t = includes (codes t) (codes s)

abbrev pub onto_first : Char → List String → List String
onto_first c [] = String.◌∷◌ c "" ∷ []
onto_first c (s ∷ ss) = String.◌∷◌ c s ∷ ss

-- `s.split(separator)` for a separator of one character: at least one part.
abbrev pub split_at : ℕ → String → List String
split_at separator String.[] = "" ∷ []
split_at separator (String.◌∷◌ c s) =
    let rest = split_at separator s in
    if eqb (code c) separator then "" ∷ rest else onto_first c rest
