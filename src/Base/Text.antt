-- ===== src/Base/Text.antt =====
-- Text: Python's `+` on strings.
use Prim.Native.Nat.{ℕ, suc}
use Prim.Native.String.{String, [], ◌∷◌, compare, ◌++◌}
use mathlib.Core.Bool.{Bool}
use text.Mathlib.Text.{is_lt}

infixr 60 ◌<>◌
abbrev pub ◌<>◌ : String → String → String
s <> t = s ++ t

-- `s < t`, in the order of code points
abbrev pub str_lt : String → String → Bool
str_lt s t = is_lt (compare s t)

-- `len(s)`: the number of code points.
abbrev pub char_count : String → ℕ
char_count [] = 0
char_count (c ∷ s) = suc (char_count s)
