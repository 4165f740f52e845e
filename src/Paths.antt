-- ===== src/Paths.antt =====
-- withinRoot of internal/supervisor/commands.go, over filepath.Clean and filepath.Rel of the
-- Unix path package: a cleaned path is whether it is rooted, with its elements.
use durable_agent_handoff.Prelude.{
  String, Bool, true, false, not, ◌&&◌, ◌||◌, Option, none, some, List, [], ◌∷◌, ◌==◌, eqb,
  if◌then◌else◌,
}
use Prim.Native.Char.{Char, code}
use mathlib.Core.List.{reverse}

pub record CleanPath : Type 0 where
  pub rooted : Bool
  pub elements : List String

grow : Char → List String → List String
grow c [] = String.◌∷◌ c "" ∷ []
grow c (x ∷ xs) = String.◌∷◌ c x ∷ xs

-- The texts between the slashes.
split_slash : String → List String
unfolding grow
split_slash String.[] = "" ∷ []
split_slash (String.◌∷◌ c s) =
    let rest = split_slash s in if eqb (code c) b'/' then "" ∷ rest else grow c rest

is_rooted : String → Bool
is_rooted String.[] = false
is_rooted (String.◌∷◌ c s) = eqb (code c) b'/'

-- `..` takes back the element before it; above the root there is only the root.
go_up : Bool → List String → List String
go_up rooted [] = if rooted then [] else ".." ∷ []
go_up rooted (x ∷ out) = if x == ".." then ".." ∷ x ∷ out else out

-- The elements so far, the last one first.
clean_elements : Bool → List String → List String → List String
unfolding go_up
clean_elements rooted out [] = out
clean_elements rooted out (e ∷ es) =
    clean_elements rooted
      (if e == "" || e == "." then out else if e == ".." then go_up rooted out else e ∷ out) es

-- filepath.Clean
unfoldable pub clean : String → CleanPath
unfolding split_slash is_rooted clean_elements
clean path = record {
  rooted = is_rooted path;
  elements = reverse (clean_elements (is_rooted path) [] (split_slash path));
}

-- What is left of the candidate behind the root, if the root's elements begin it.
unfoldable pub relative : List String → List String → Option (List String)
relative [] rest = some rest
relative (x ∷ xs) [] = none
relative (x ∷ xs) (y ∷ ys) = if x == y then relative xs ys else none

-- The relative path neither is `..` nor begins with it.
unfoldable pub stays_inside : Option (List String) → Bool
stays_inside none = false
stays_inside (some []) = true
stays_inside (some (x ∷ xs)) = not (x == "..")

-- filepath.Rel gives a path, inside the root, where both are rooted or neither is.
unfoldable pub within : CleanPath → CleanPath → Bool
unfolding relative stays_inside
within root candidate =
    same root.rooted candidate.rooted && stays_inside (relative root.elements candidate.elements)
  where
    same : Bool → Bool → Bool
    same true b = b
    same false b = not b

-- withinRoot
unfoldable pub within_root : String → String → Bool
unfolding clean within
within_root root candidate = within (clean root) (clean candidate)
