-- ===== src/Base/Text.antt =====
-- Text as the checks of the code read it: its code points.
use Prim.Native.Nat.{ℕ}
use Prim.Native.Char.{code}
use Prim.Native.String.{String}
use mathlib.Core.Bool.{Bool, true, false, not, ◌&&◌, ◌||◌}
use mathlib.Core.List.{List, [], ◌∷◌}
use agentic_works.Base.Tests.{ltb, leb, eqb}
use agentic_works.Base.Lists.{any}

abbrev pub codes : String → List ℕ
codes String.[] = []
codes (String.◌∷◌ c s) = code c ∷ codes s

-- `str.isspace` of one character, which `str.strip` removes at both ends
abbrev pub is_space : ℕ → Bool
is_space c =
    (leb 9 c && leb c 13)
    || (leb 28 c && leb c 32)
    || eqb c 133
    || eqb c 160
    || eqb c 5760
    || (leb 8192 c && leb c 8202)
    || eqb c 8232
    || eqb c 8233
    || eqb c 8239
    || eqb c 8287
    || eqb c 12288

-- `ord(c) < 32 or ord(c) == 127`
abbrev pub is_control : ℕ → Bool
is_control c = ltb c 32 || eqb c 127

abbrev pub ends_in_space : List ℕ → Bool
ends_in_space [] = false
ends_in_space (c ∷ []) = is_space c
ends_in_space (c ∷ d ∷ cs) = ends_in_space (d ∷ cs)

-- `value == value.strip()`
unfoldable pub is_stripped : List ℕ → Bool
is_stripped [] = true
is_stripped (c ∷ cs) = not (is_space c) && not (ends_in_space (c ∷ cs))

-- `bool(value.strip())`
unfoldable pub has_text : List ℕ → Bool
has_text cs = any (λ c. not (is_space c)) cs
