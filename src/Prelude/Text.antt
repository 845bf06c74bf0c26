-- ===== src/Prelude/Text.antt =====
-- Texts: template literals, and the tests that walk a text's characters.
use Prim.Native.Nat.{ℕ, zero, suc, ◌+◌, ◌/◌, ◌%◌}
use Prim.Native.Char.{code}
use Prim.Native.String
use Prim.Native.String.{String}
use mathlib.Core.Bool.{Bool, true, false, ◌&&◌, ◌||◌}
use mathlib.Core.List.{List, [], ◌∷◌}
use liminal_engine.Prelude.Tests.{ltb, eqb, if◌then◌else◌}

abbrev pub codes : String → List ℕ
codes String.[] = []
codes (String.◌∷◌ c s) = code c ∷ codes s

-- A template literal, its parts in order.
abbrev pub template : List String → String
template [] = ""
template (s ∷ []) = s
template (s ∷ t ∷ ts) = String.◌++◌ s (template (t ∷ ts))

abbrev pub is_prefix : List ℕ → List ℕ → Bool
is_prefix [] s = true
is_prefix (p ∷ ps) [] = false
is_prefix (p ∷ ps) (c ∷ s) = eqb p c && is_prefix ps s

-- `s.includes(t)` over the characters, the text searched second.
abbrev pub includes : List ℕ → List ℕ → Bool
includes t [] = is_prefix t []
includes t (c ∷ s) = is_prefix t (c ∷ s) || includes t s

abbrev digit_text : ℕ → String
digit_text d = String.slice "0123456789" d (d + 1)

-- One round for each digit, so `n + 1` rounds are enough.
abbrev number_text_on_fuel : ℕ → ℕ → String → String
number_text_on_fuel zero n rest = rest
number_text_on_fuel (suc f) n rest =
    let last = String.◌++◌ (digit_text (n % 10)) rest in
    let more = number_text_on_fuel f (n / 10) last in if ltb n 10 then last else more

-- `${n}` for a natural number.
pub number_text : ℕ → String
number_text n = number_text_on_fuel (suc n) n ""
