-- ===== src/Reducer/Dag.antt =====
-- validateDAG of internal/supervisor/reducer.go: a depth-first search over the dependencies of a
-- workflow's nodes. The nodes being visited are the path of calls: a node joins it when its call
-- begins and is deleted when the call ends. Roots are visited in the order of the identities.
pub mod Order
pub mod Search
pub mod Complete
use durable_agent_handoff.Prelude.{
  ℕ, zero, suc, String, Bool, false, ◌||◌, List, [], ◌∷◌, ◌==◌, str_ltb, Assoc, lookup,
  if◌then◌else◌, length, invalid, out_of_fuel, Fallible, ok, err, ◌>>=◌, or_fail,
}
use durable_agent_handoff.Types.{Node, Workflow}

unfoldable pub contains : List String → String → Bool
contains [] id = false
contains (x ∷ xs) id = x == id || contains xs id

-- The loop over the dependencies of a node, with the call for one of them as an argument.
unfoldable pub visit_dependencies :
    (String → List String → Fallible (List String))
    → Assoc Node
    → List String
    → List String
    → Fallible (List String)
visit_dependencies visit nodes [] visited = ok visited
visit_dependencies visit nodes (d ∷ ds) visited =
    or_fail (lookup d nodes) (invalid "node depends on unknown node") >>= λ _.
    visit d visited >>= λ visited'. visit_dependencies visit nodes ds visited'

-- The nodes visited after a visit of `id`, newest first.
unfoldable pub visit : ℕ → Assoc Node → List String → String → List String → Fallible (List String)
unfolding contains visit_dependencies
visit zero nodes visiting id visited = err out_of_fuel
visit (suc fuel) nodes visiting id visited =
    if contains visiting id
    then err (invalid "dependency cycle")
    else if contains visited id
    then ok visited
    else or_fail (lookup id nodes) (invalid "unknown node") >>= λ node.
        visit_dependencies (visit fuel nodes (id ∷ visiting)) nodes node.dependencies visited
        >>= λ visited'. ok (id ∷ visited')

unfoldable pub visit_all : ℕ → Assoc Node → List String → List String → Fallible (List String)
unfolding visit
visit_all fuel nodes [] visited = ok visited
visit_all fuel nodes (id ∷ ids) visited =
    visit fuel nodes [] id visited >>= λ visited'. visit_all fuel nodes ids visited'

unfoldable pub keys : {V : Type 0} → Assoc V → List String
keys [] = []
keys ((k, v) ∷ m) = k ∷ keys m

-- sort.Strings
unfoldable pub insert_sorted : String → List String → List String
insert_sorted x [] = x ∷ []
insert_sorted x (y ∷ ys) = if str_ltb y x then y ∷ insert_sorted x ys else x ∷ y ∷ ys

unfoldable pub sort_strings : List String → List String
unfolding insert_sorted
sort_strings [] = []
sort_strings (x ∷ xs) = insert_sorted x (sort_strings xs)

-- A path of calls holds each node once, so one call more than there are nodes is fuel enough.
unfoldable pub search_order : Assoc Node → Fallible (List String)
unfolding visit_all keys sort_strings
search_order nodes = visit_all (suc (length nodes)) nodes (sort_strings (keys nodes)) []

unfoldable pub validate_dag : Workflow → Fallible (Unit {0})
unfolding search_order
validate_dag w = search_order w.nodes >>= λ _. ok tt
