-- ===== src/Prelude/Strings.antt =====
-- Go's strings package, as far as the program uses it, over texts of code points.
use Prim.Native.Nat.{ℕ}
use Prim.Native.Char.{code}
use Prim.Native.String.{String}
use mathlib.Core.Bool.{Bool, true, false, ◌&&◌, ◌||◌}
use durable_agent_handoff.Prelude.Base.{ltb, leb, eqb, if◌then◌else◌}

-- unicode.IsSpace
unfoldable pub is_space : ℕ → Bool
is_space c =
    (leb 9 c && leb c 13)
    || eqb c 32
    || eqb c 0x85
    || eqb c 0xa0
    || eqb c 0x1680
    || (leb 0x2000 c && leb c 0x200a)
    || eqb c 0x2028
    || eqb c 0x2029
    || eqb c 0x202f
    || eqb c 0x205f
    || eqb c 0x3000

-- strings.TrimSpace(s) == ""
unfoldable pub blank : String → Bool
unfolding is_space
blank String.[] = true
blank (String.◌∷◌ c s) = is_space (code c) && blank s

trim_left : String → String
unfolding is_space
trim_left String.[] = ""
trim_left (String.◌∷◌ c s) = if is_space (code c) then trim_left s else String.◌∷◌ c s

trim_right : String → String
unfolding blank
trim_right String.[] = ""
trim_right (String.◌∷◌ c s) =
    if is_space (code c) && blank s then "" else String.◌∷◌ c (trim_right s)

-- strings.TrimSpace
unfoldable pub trim_space : String → String
unfolding trim_left trim_right
trim_space s = trim_left (trim_right s)

-- a < b on strings
unfoldable pub str_ltb : String → String → Bool
str_ltb String.[] String.[] = false
str_ltb String.[] (String.◌∷◌ d t) = true
str_ltb (String.◌∷◌ c s) String.[] = false
str_ltb (String.◌∷◌ c s) (String.◌∷◌ d t) =
    ltb (code c) (code d) || (eqb (code c) (code d) && str_ltb s t)
