-- ===== src/Reducer/Dag/Complete.antt =====
-- The search of validateDAG accepts every workflow whose dependencies are known and without cycle;
-- one call more than there are nodes is fuel enough for it.
use durable_agent_handoff.Prelude.{
  ℕ, zero, suc, ◌+◌, ◌≤◌, ◌<◌, String, ◌≡◌, refl, sym, subst, ◌↔◌, inl, inr, true, false, some,
  List, [], ◌∷◌, arith, ◌==◌, eq_iff, eq_refl, Assoc, lookup, if◌then◌else◌, Bool-cases,
  Option-cases, is_some, length, Fallible, ok,
}
use durable_agent_handoff.Types.{Node, Workflow}
use durable_agent_handoff.Reducer.Dag.{
  contains, visit_dependencies, visit, visit_all, keys, sort_strings, search_order, validate_dag,
}
use durable_agent_handoff.Reducer.Dag.Order.{
  DependsOn, direct, extend, IsClosed, IsAcyclic, contains-sort_strings, contains-keys,
}
use durable_agent_handoff.Reducer.Dag.Search.{validate_dag_sound}

module _ {V : Type 0} where
  without : String → Assoc V → Assoc V
  without k [] = []
  without k ((j, v) ∷ m) = let rest = without k m in if j == k then rest else (j, v) ∷ rest

  lookup-without :
      (k j : String) (m : Assoc V) → (k == j) ≡ false → lookup j (without k m) ≡ lookup j m
  unfolding without lookup
  lookup-without k j [] n = refl
  lookup-without k j ((i, v) ∷ m) n =
      ground (arith, lookup-without k j m n, eq_iff i k, eq_iff i j, eq_iff k j)

  length-without-le : (k : String) (m : Assoc V) → length (without k m) ≤ length m
  unfolding without
  length-without-le k [] = omega arith
  length-without-le k ((i, v) ∷ m) = ground (arith, length-without-le k m)

  length-without-lt :
      (k : String) (m : Assoc V) → is_some (lookup k m) ≡ true → length (without k m) < length m
  unfolding without lookup
  length-without-lt k [] h = cc
  length-without-lt k ((i, v) ∷ m) h = ground (arith, length-without-lt k m, length-without-le k m)

abbrev IsDistinct : List String → Type 0
IsDistinct [] = Unit {0}
IsDistinct (x ∷ xs) = (contains xs x ≡ false) × IsDistinct xs

abbrev AllKnown : {V : Type 0} → Assoc V → List String → Type 0
AllKnown m xs = (x : String) → contains xs x ≡ true → is_some (lookup x m) ≡ true

-- Distinct keys of a map are no more than its entries.
distinct-length :
    {V : Type 0} (xs : List String) (m : Assoc V)
    → IsDistinct xs
    → AllKnown m xs
    → length xs ≤ length m
unfolding contains
distinct-length [] m d k = omega arith
distinct-length (x ∷ xs) m d k =
    let shorter = length-without-lt x m (k x (ground (arith, eq_refl x))) in
    let rest = distinct-length xs (without x m) d.1 others in omega arith
  where
    apart : (y : String) → contains xs y ≡ true → (x == y) ≡ false
    apart y c = elim (Bool-cases (x == y)) [
      | inr n ↦ n
      | inl e ↦
          let same : x ≡ y = (eq_iff x y).0 e in
          cc (d.0, subst (λ z. contains xs z ≡ true) (sym same) c)
    ]

    others : AllKnown (without x m) xs
    others y c = rw (lookup-without x y m (apart y c)) (k y (ground (arith, c)))

dependencies_complete :
    (nodes : Assoc Node) (f : String → List String → Fallible (List String)) (ds : List String)
    → ((d : String)
        → contains ds d ≡ true
        → (visited : List String) → (out : List String) × (f d visited ≡ ok out))
    → AllKnown nodes ds
    → (visited : List String)
    → (out : List String) × (visit_dependencies f nodes ds visited ≡ ok out)
unfolding visit_dependencies contains
dependencies_complete nodes f [] answers k visited = (visited, refl)
dependencies_complete nodes f (d ∷ ds) answers k visited =
    let (mid, z) = answers d (ground (arith, eq_refl d)) visited in
    let (out, h) =
      dependencies_complete nodes f ds (λ e c. answers e (ground (arith, c)))
        (λ e c. k e (ground (arith, c))) mid in
    (out, ground (arith, k d, eq_refl d, z, h))

module _ (nodes : Assoc Node) (closed : IsClosed nodes) (acyclic : IsAcyclic nodes) where
  visit_complete :
      (fuel : ℕ) (visiting : List String)
      → IsDistinct visiting
      → AllKnown nodes visiting
      → suc (length nodes) ≤ fuel + length visiting
      → (id : String) (visited : List String)
      → ((p : String) → contains visiting p ≡ true → DependsOn nodes p id)
      → is_some (lookup id nodes) ≡ true
      → (out : List String) × (visit fuel nodes visiting id visited ≡ ok out)
  unfolding visit
  visit_complete zero visiting distinct known room id visited leads here =
      let few = distinct-length visiting nodes distinct known in absurd (omega arith)
  visit_complete (suc fuel) visiting distinct known room id visited leads here =
      elim (Bool-cases (contains visiting id)) [
        | inl cycle ↦ absurd (acyclic.no_cycle id (leads id cycle))
        | inr fresh ↦ elim (Bool-cases (contains visited id)) [
          | inl old ↦ (visited, ground arith)
          | inr new ↦ elim (Option-cases (lookup id nodes)) [
            | inl e ↦ absurd (ground arith)
            | inr (n, l) ↦
                let (out, h) =
                  dependencies_complete nodes (visit fuel nodes (id ∷ visiting)) n.dependencies
                    (deeper fresh n l (visit_complete fuel (id ∷ visiting)))
                    (λ d c. closed.known id d (n, l, c)) visited in
                (id ∷ out, ground arith)
          ]
        ]
      ]
    where
      longer : AllKnown nodes (id ∷ visiting)
      longer p c = elim (Bool-cases (id == p)) [
        | inl e ↦ subst (λ x. is_some (lookup x nodes) ≡ true) ((eq_iff id p).0 e) here
        | inr e ↦ known p (ground arith)
      ]

      leads_on :
          (n : Node) (d : String)
          → lookup id nodes ≡ some n
          → contains n.dependencies d ≡ true
          → (p : String) → contains (id ∷ visiting) p ≡ true
          → DependsOn nodes p d
      leads_on n d l c p q = elim (Bool-cases (id == p)) [
        | inl e ↦ subst (λ x. DependsOn nodes x d) ((eq_iff id p).0 e) (direct (n, l, c))
        | inr e ↦ extend (leads p (ground arith)) (n, l, c)
      ]

      deeper :
          (contains visiting id ≡ false)
          → (n : Node) → lookup id nodes ≡ some n
          → (IsDistinct (id ∷ visiting)
              → AllKnown nodes (id ∷ visiting)
              → suc (length nodes) ≤ fuel + length (id ∷ visiting)
              → (d : String) (visited' : List String)
              → ((p : String) → contains (id ∷ visiting) p ≡ true → DependsOn nodes p d)
              → is_some (lookup d nodes) ≡ true
              → (out : List String) × (visit fuel nodes (id ∷ visiting) d visited' ≡ ok out))
          → (d : String) → contains n.dependencies d ≡ true
          → (visited' : List String)
          → (out : List String) × (visit fuel nodes (id ∷ visiting) d visited' ≡ ok out)
      deeper fresh n l call d c visited' =
          call (fresh, distinct) longer (omega arith) d visited' (leads_on n d l c)
            (closed.known id d (n, l, c))

  visit_all_complete :
      (ids visited : List String)
      → AllKnown nodes ids
      → (out : List String) × (visit_all (suc (length nodes)) nodes ids visited ≡ ok out)
  unfolding visit_all contains
  visit_all_complete [] visited k = (visited, refl)
  visit_all_complete (i ∷ ids) visited k =
      let (mid, z) =
        visit_complete (suc (length nodes)) [] tt (λ x c. cc c) (omega arith) i visited
          (λ p c. absurd (cc c)) (k i (ground (arith, eq_refl i))) in
      let (out, h) = visit_all_complete ids mid (λ x c. k x (ground (arith, c))) in
      (out, ground (arith, z, h))

-- validateDAG accepts exactly the workflows whose dependencies are all nodes of the workflow and
-- where no node depends on itself, directly or through others.
pub validate_dag_iff :
    (w : Workflow) → (validate_dag w ≡ ok tt) ↔ (IsClosed w.nodes × IsAcyclic w.nodes)
unfolding validate_dag search_order
validate_dag_iff w = (
  validate_dag_sound w,
  λ h.
      let (out, z) = visit_all_complete w.nodes h.0 h.1 (sort_strings (keys w.nodes)) [] (λ x c.
        (ground (arith, contains-sort_strings (keys w.nodes) x, contains-keys w.nodes x, c))) in
      ground (arith, z),
)
