-- ===== src/Prelude/Errors.antt =====
-- Go's error results. A message is kept by its format text; its variable parts are not modelled.
use mathlib.Core.Path.{◌≡◌, refl}
use mathlib.Core.Logic.{◌⊎◌, inl, inr}
use mathlib.Core.Bool.{Bool, true, false}
use mathlib.Core.Option.{Option, none, some}
use mathlib.Core.List.{List, [], ◌∷◌}
use Prim.Native.String.{String}

pub data Error : Type 0 where
  -- the package's sentinel errors
  fenced lease_held pause_pending idempotency_conflict live_orphan : Error
  control_already_accepted : String → Error
  -- os.ErrNotExist
  not_exist : Error
  -- errors.New and fmt.Errorf
  invalid : String → Error
  -- an error that the environment returned: the file system, the ledger, a fault hook
  environment : String → Error
  -- a nil dereference
  panics : Error
  -- a bounded recursion ran out; no theorem's result is this
  out_of_fuel : Error

pub data Fallible {ℓ} (A : Type ℓ) : Type ℓ where
  ok : A → Fallible A
  err : Error → Fallible A

infixl 5 ◌>>=◌ ◌>>◌
-- A call, and what follows it unless it returns an error.
abbrev pub ◌>>=◌ {ℓ κ} : {A : Type ℓ} {B : Type κ} → Fallible A → (A → Fallible B) → Fallible B
err e >>= next = err e
ok value >>= next = next value

-- if bad { return err }
abbrev pub refuse : Bool → Error → Fallible (Unit {0})
refuse false e = ok tt
refuse true e = err e

abbrev pub ◌>>◌ {ℓ} : {B : Type ℓ} → Fallible (Unit {0}) → Fallible B → Fallible B
check >> next = check >>= λ x. next

-- if pointer == nil { return err }
abbrev pub or_fail {ℓ} : {A : Type ℓ} → Option A → Error → Fallible A
or_fail none e = err e
or_fail (some a) e = ok a

abbrev pub map_ok {ℓ κ} : {A : Type ℓ} {B : Type κ} → (A → B) → Fallible A → Fallible B
map_ok f (ok a) = ok (f a)
map_ok f (err e) = err e

-- A loop that stops at the first error.
abbrev pub for_each {ℓ} : {A : Type ℓ} → (A → Fallible (Unit {0})) → List A → Fallible (Unit {0})
for_each f [] = ok tt
for_each f (x ∷ xs) = f x >>= λ _. for_each f xs

-- A successful call and its continuation, taken apart.
pub >>=-eq-ok {ℓ κ} :
    {A : Type ℓ} {B : Type κ} (call : Fallible A) (next : A → Fallible B) {result : B}
    → (call >>= next) ≡ ok result
    → (value : A) × (call ≡ ok value) × (next value ≡ ok result)
>>=-eq-ok (err e) next returned = cc
>>=-eq-ok (ok value) next returned = (value, refl, returned)

pub Fallible-cases {ℓ} :
    {A : Type ℓ} (r : Fallible A) → ((a : A) × (r ≡ ok a)) ⊎ ((e : Error) × (r ≡ err e))
Fallible-cases (ok a) = inl (a, refl)
Fallible-cases (err e) = inr (e, refl)

-- Two continuations that agree.
pub >>=-ext {ℓ κ} :
    {A : Type ℓ} {B : Type κ} (call : Fallible A) (f g : A → Fallible B)
    → ((a : A) → f a ≡ g a)
    → (call >>= f) ≡ (call >>= g)
>>=-ext (err e) f g same = refl
>>=-ext (ok a) f g same = same a

-- What follows a check that passed.
pub >>-eq-ok {ℓ} :
    {B : Type ℓ} (check : Fallible (Unit {0})) (next : Fallible B) {result : B}
    → (check >> next) ≡ ok result
    → next ≡ ok result
>>-eq-ok check next returned = (>>=-eq-ok check (λ _. next) returned).2

pub >>=-assoc {ℓ κ ι} :
    {A : Type ℓ} {B : Type κ} {C : Type ι} (call : Fallible A) (f : A → Fallible B)
    (g : B → Fallible C)
    → ((call >>= f) >>= g) ≡ (call >>= λ a. f a >>= g)
>>=-assoc (err e) f g = refl
>>=-assoc (ok a) f g = refl

-- What follows a condition that does not refuse.
pub refuse-then {ℓ} :
    {A : Type ℓ} (bad : Bool) (e : Error) (next : Fallible A) {result : A}
    → (refuse bad e >> next) ≡ ok result
    → (bad ≡ false) × (next ≡ ok result)
refuse-then false e next returned = (refl, returned)
refuse-then true e next returned = cc
