-- ===== src/Base/Text.antt =====
-- Texts as Go's `strings` has them.
use Prim.Native.Char.{code}
use tapr.Base.Equality.{nat_eq, ◌==◌}
use Prim.Native.Nat.{ℕ, zero, suc, ◌-◌}
use Prim.Native.String.{String, ◌++◌ as ◌<>◌}
use mathlib.Core.Bool.{Bool, true, false}
use text.Mathlib.Text.{starts_with}

-- The number of characters.
unfoldable pub size : String → ℕ
size String.[] = 0
size (String.◌∷◌ c s) = suc (size s)

-- `strings.ReplaceAll` for a text `old` that is not empty; `skip` characters of it are still to pass over.
unfoldable pub replace_from : String → String → ℕ → String → String
unfolding size
replace_from old by skip String.[] = ""
replace_from old by zero (String.◌∷◌ c s) = elim (starts_with (String.◌∷◌ c s) old) [
  | true ↦ by <> replace_from old by (size old - 1) s
  | false ↦ String.◌∷◌ c (replace_from old by 0 s)
]
replace_from old by (suc skip) (String.◌∷◌ c s) = replace_from old by skip s

unfoldable pub replace_all : String → String → String → String
unfolding replace_from
replace_all s old by = replace_from old by 0 s

-- `strings.HasSuffix(s, ";")`
unfoldable pub ends_with_semicolon : String → Bool
ends_with_semicolon String.[] = false
ends_with_semicolon (String.◌∷◌ c String.[]) = code c == b';'
ends_with_semicolon (String.◌∷◌ c (String.◌∷◌ d s)) = ends_with_semicolon (String.◌∷◌ d s)
