-- ===== src/Prelude/Maps.antt =====
-- Go's maps with string keys, as association lists. A range over a map visits the list in order.
use Prim.Native.Nat.{suc}
use Prim.Native.String.{String}
use mathlib.Core.Bool.{Bool, false}
use mathlib.Core.Path.{◌≡◌, refl}
use mathlib.Core.Option.{Option, none, some}
use mathlib.Core.List.{List, [], ◌∷◌}
use native.Mathlib.Omega.{arith}
use text.Mathlib.Text.{◌==◌}
use text.Mathlib.TextEquality.{eq_iff}
use durable_agent_handoff.Prelude.Base.{if◌then◌else◌, is_some, count}

abbrev pub Assoc {ℓ} : Type ℓ → Type ℓ
Assoc V = List (String × V)

module _ {ℓ} {V : Type ℓ} where
  -- m[k], with none for a missing key
  unfoldable pub lookup : String → Assoc V → Option V
  lookup k [] = none
  lookup k ((j, v) ∷ m) = if j == k then some v else lookup k m

  -- m[k] = v
  unfoldable pub put : String → V → Assoc V → Assoc V
  put k v [] = (k, v) ∷ []
  put k v ((j, w) ∷ m) = if j == k then (k, v) ∷ m else (j, w) ∷ put k v m

  unfoldable pub values : Assoc V → List V
  values [] = []
  values ((k, v) ∷ m) = v ∷ values m

  pub lookup-put :
      (k j : String) (v : V) (m : Assoc V)
      → lookup j (put k v m) ≡ (if k == j then some v else lookup j m)
  unfolding lookup put
  lookup-put k j v [] = refl
  lookup-put k j v ((i, w) ∷ m) =
      ground (arith, eq_iff k j, eq_iff i k, eq_iff i j, lookup-put k j v m)

  -- A key that is new adds its value to the count.
  pub count-put :
      (p : V → Bool) (k : String) (v : V) (m : Assoc V)
      → is_some (lookup k m) ≡ false
      → count p (values (put k v m))
        ≡ (if p v then suc (count p (values m)) else count p (values m))
  unfolding lookup put values
  count-put p k v [] h = refl
  count-put p k v ((j, w) ∷ m) h = ground (arith, count-put p k v m)
