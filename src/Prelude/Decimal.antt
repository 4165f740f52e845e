-- ===== src/Prelude/Decimal.antt =====
-- The %d of fmt: numbers in decimal.
use Prim.Native.Nat.{ℕ, zero, suc, ◌/◌, ◌%◌}
use Prim.Native.String.{String}
use mathlib.Core.Path.{◌≡◌, refl}
use durable_agent_handoff.Prelude.Base.{ltb, eqb, if◌then◌else◌}
use durable_agent_handoff.Prelude.Int.{ℤ, pos, negsuc}

-- a + b on texts
unfoldable pub join : String → String → String
join String.[] t = t
join (String.◌∷◌ c s) t = String.◌∷◌ c (join s t)

digit : ℕ → String
digit d =
    if eqb d 0
    then "0"
    else if eqb d 1
    then "1"
    else if eqb d 2
    then "2"
    else if eqb d 3
    then "3"
    else if eqb d 4
    then "4"
    else if eqb d 5
    then "5"
    else if eqb d 6
    then "6"
    else if eqb d 7
    then "7"
    else if eqb d 8
    then "8"
    else "9"

-- A number has no more digits than its successor counts.
digits_before : ℕ → ℕ → String → String
unfolding digit join
digits_before zero n rest = rest
digits_before (suc fuel) n rest =
    let longer = digits_before fuel (n / 10) (join (digit (n % 10)) rest) in
    if ltb n 10 then join (digit n) rest else longer

unfoldable pub decimal : ℕ → String
unfolding digits_before
decimal n = digits_before (suc n) n ""

unfoldable pub decimal_ℤ : ℤ → String
unfolding decimal join
decimal_ℤ (pos n) = decimal n
decimal_ℤ (negsuc n) = join "-" (decimal (suc n))

decimal_test : decimal_ℤ (negsuc 204) ≡ "-205"
unfolding decimal_ℤ
decimal_test = refl
