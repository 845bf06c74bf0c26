-- ===== src/Contracts/Canonical/Reading.antt =====
-- Reading the fields of a canonical projection of packages/contracts/src back.
use liminal_engine.Prelude.{String, ◌≡◌, refl, ap, Option, none, some, List, [], ◌∷◌}
use liminal_engine.Contracts.Value.{Value, Items}
use liminal_engine.Contracts.Audit.{strings}

-- The text of a value that is a string.
abbrev pub text_of : Value → String
text_of (Value.string s) = s
text_of _ = ""

abbrev pub option_of : Value → Option String
option_of (Value.string s) = some s
option_of _ = none

abbrev pub strings_of_items : Items → List String
strings_of_items Items.nil = []
strings_of_items (Items.cons v xs) = text_of v ∷ strings_of_items xs

abbrev pub strings_of : Value → List String
strings_of (Value.array xs) = strings_of_items xs
strings_of _ = []

pub strings_of-strings : (ss : List String) → strings_of_items (strings ss) ≡ ss
strings_of-strings [] = refl
strings_of-strings (s ∷ ss) = ap (λ ts. s ∷ ts) (strings_of-strings ss)
