-- ===== src/Reducer/Dag/Order.antt =====
-- The dependencies of a workflow's nodes as a relation, and topological orders of them.
use durable_agent_handoff.Prelude.{
  ℕ, suc, ◌≤◌, ◌<◌, String, ◌≡◌, refl, inl, inr, true, ◌||◌, some, List, [], ◌∷◌, arith, ◌==◌,
  eq_iff, Assoc, lookup, if◌then◌else◌, Bool-cases, is_some, length, All,
}
use durable_agent_handoff.Types.{Node}
use durable_agent_handoff.Reducer.Dag.{contains, keys, insert_sorted, sort_strings}

abbrev pub HasDependency : Assoc Node → String → String → Type 0
HasDependency nodes x y =
    (n : Node) × (lookup x nodes ≡ some n) × (contains n.dependencies y ≡ true)

-- One or more dependencies lead from one node to another.
pub data DependsOn (nodes : Assoc Node) : String → String → Type 0 where
  direct : {x y : String} → HasDependency nodes x y → DependsOn nodes x y
  through : {x y z : String} → HasDependency nodes x y → DependsOn nodes y z → DependsOn nodes x z

-- Every dependency is a node.
pub record IsClosed (nodes : Assoc Node) : Type 0 where
  pub known : (x y : String) → HasDependency nodes x y → is_some (lookup y nodes) ≡ true

-- No node depends on itself.
pub record IsAcyclic (nodes : Assoc Node) : Type 0 where
  pub no_cycle : (x : String) → ¬ DependsOn nodes x x

pub extend :
    {nodes : Assoc Node} {x y z : String}
    → DependsOn nodes x y
    → HasDependency nodes y z
    → DependsOn nodes x z
extend (direct h) k = through h (direct k)
extend (through h d) k = through h (extend d k)

-- Newest first: what a node depends on stands behind it.
abbrev pub IsTopological : Assoc Node → List String → Type 0
IsTopological nodes [] = Unit {0}
IsTopological nodes (x ∷ xs) =
    ((n : Node) × (lookup x nodes ≡ some n) × All (λ d. contains xs d ≡ true) n.dependencies)
    × IsTopological nodes xs

All-contains :
    (xs ds : List String) (d : String)
    → All (λ e. contains xs e ≡ true) ds
    → contains ds d ≡ true
    → contains xs d ≡ true
unfolding contains
All-contains xs [] d a h = cc
All-contains xs (e ∷ ds) d a h = ground (arith, All-contains xs ds d a.1, eq_iff e d, a.0)

-- The place of the last occurrence, from the end.
pub rank : List String → String → ℕ
rank [] x = 0
rank (y ∷ ys) x = if contains ys x then rank ys x else if y == x then suc (length ys) else 0

rank-le-length : (xs : List String) (x : String) → rank xs x ≤ length xs
unfolding rank
rank-le-length [] x = omega arith
rank-le-length (y ∷ ys) x = ground (arith, rank-le-length ys x)

-- A dependency of an ordered node is ordered before it.
pub topological-dependency :
    (nodes : Assoc Node) (xs : List String) (x y : String)
    → IsTopological nodes xs
    → contains xs x ≡ true
    → HasDependency nodes x y
    → (contains xs y ≡ true) × (rank xs y < rank xs x)
unfolding rank contains
topological-dependency nodes [] x y t c h = cc
topological-dependency nodes (z ∷ xs) x y t c h = elim (Bool-cases (contains xs x)) [
  | inl old ↦ ground (arith, topological-dependency nodes xs x y t.1 old h)
  | inr new ↦
      let here : z ≡ x = (eq_iff z x).0 (ground arith) in
      let behind : contains xs y ≡ true =
        All-contains xs t.0.0.dependencies y t.0.2 (ground (arith, here, h.1, h.2, t.0.1)) in
      ground (arith, rank-le-length xs y)
]

topological-known :
    (nodes : Assoc Node) (xs : List String) (x : String)
    → IsTopological nodes xs
    → contains xs x ≡ true
    → is_some (lookup x nodes) ≡ true
unfolding contains
topological-known nodes [] x t c = cc
topological-known nodes (z ∷ xs) x t c =
    ground (arith, topological-known nodes xs x t.1, eq_iff z x, t.0.1)

topological-DependsOn :
    (nodes : Assoc Node) (xs : List String) {x y : String}
    → IsTopological nodes xs
    → DependsOn nodes x y
    → contains xs x ≡ true
    → rank xs y < rank xs x
topological-DependsOn nodes xs t (direct {x = x} {y = y} h) c =
    (topological-dependency nodes xs x y t c h).1
topological-DependsOn nodes xs t (through {x = x} {y = y} h d) c =
    let (behind, below) = topological-dependency nodes xs x y t c h in
    let rest = topological-DependsOn nodes xs t d behind in omega arith

has_node :
    (nodes : Assoc Node) {x y : String} → DependsOn nodes x y → is_some (lookup x nodes) ≡ true
has_node nodes (direct h) = ground (arith, h.1)
has_node nodes (through h d) = ground (arith, h.1)

-- An order of all nodes shows that the dependencies are known and have no cycle.
module _ (nodes : Assoc Node) (xs : List String) (t : IsTopological nodes xs)
    (all : (x : String) → is_some (lookup x nodes) ≡ true → contains xs x ≡ true) where
  pub topological-IsClosed : IsClosed nodes
  topological-IsClosed = record {
    known = λ x y h.
        topological-known nodes xs y t
          (topological-dependency nodes xs x y t (all x (has_node nodes (direct h))) h).0;
  }

  pub topological-IsAcyclic : IsAcyclic nodes
  topological-IsAcyclic = record {
    no_cycle = λ x d.
        let below = topological-DependsOn nodes xs t d (all x (has_node nodes d)) in
        absurd (omega arith);
  }

contains-insert_sorted :
    (x y : String) (xs : List String) → contains (insert_sorted x xs) y ≡ (x == y || contains xs y)
unfolding contains insert_sorted
contains-insert_sorted x y [] = refl
contains-insert_sorted x y (z ∷ xs) = ground (arith, contains-insert_sorted x y xs)

pub contains-sort_strings :
    (xs : List String) (y : String) → contains (sort_strings xs) y ≡ contains xs y
unfolding contains sort_strings
contains-sort_strings [] y = refl
contains-sort_strings (x ∷ xs) y =
    ground (arith, contains-insert_sorted x y (sort_strings xs), contains-sort_strings xs y)

pub contains-keys :
    {V : Type 0} (m : Assoc V) (x : String) → contains (keys m) x ≡ is_some (lookup x m)
unfolding contains keys lookup
contains-keys [] x = refl
contains-keys ((k, v) ∷ m) x = ground (arith, contains-keys m x)
