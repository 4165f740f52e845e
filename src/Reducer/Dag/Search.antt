-- ===== src/Reducer/Dag/Search.antt =====
-- The search of validateDAG is sound, complete, and never short of fuel.
use durable_agent_handoff.Prelude.{
  ℕ, zero, suc, String, ◌≡◌, subst, inl, inr, true, ◌||◌, List, [], ◌∷◌, arith, ◌==◌, eq_iff,
  eq_refl, Assoc, lookup, Bool-cases, Option-cases, is_some, length, All, Fallible, ok,
  Fallible-cases,
}
use durable_agent_handoff.Types.{Node, Workflow}
use durable_agent_handoff.Reducer.Dag.{
  contains, visit_dependencies, visit, visit_all, keys, sort_strings, search_order, validate_dag,
}
use durable_agent_handoff.Reducer.Dag.Order.{
  IsClosed, IsAcyclic, IsTopological, topological-IsClosed, topological-IsAcyclic,
  contains-sort_strings, contains-keys,
}

-- What a visit of `id` makes of the nodes visited.
record Visits (nodes : Assoc Node) (visited : List String) (id : String) (out : List String)
    : Type 0 where
  ordered : IsTopological nodes out
  has : contains out id ≡ true
  grows : (x : String) → contains visited x ≡ true → contains out x ≡ true

abbrev Sound : Assoc Node → (String → List String → Fallible (List String)) → Type 0
Sound nodes f =
    (d : String) (visited out : List String)
    → IsTopological nodes visited
    → f d visited ≡ ok out
    → Visits nodes visited d out

All-grows :
    (xs ys ds : List String)
    → ((x : String) → contains xs x ≡ true → contains ys x ≡ true)
    → All (λ d. contains xs d ≡ true) ds
    → All (λ d. contains ys d ≡ true) ds
All-grows xs ys [] g a = tt
All-grows xs ys (d ∷ ds) g a = (g d a.0, All-grows xs ys ds g a.1)

dependencies-Visits :
    (nodes : Assoc Node) (f : String → List String → Fallible (List String)) (ds : List String)
    (visited out : List String)
    → Sound nodes f
    → IsTopological nodes visited
    → visit_dependencies f nodes ds visited ≡ ok out
    → (IsTopological nodes out)
      × All (λ d. contains out d ≡ true) ds
      × ((x : String) → contains visited x ≡ true → contains out x ≡ true)
unfolding visit_dependencies
dependencies-Visits nodes f [] visited out sound t h =
    let same : visited ≡ out = ground arith in
    (subst (IsTopological nodes) same t, tt, λ x c. subst (λ o. contains o x ≡ true) same c)
dependencies-Visits nodes f (d ∷ ds) visited out sound t h = elim (Fallible-cases (f d visited)) [
  | inr (e, z) ↦ absurd (ground arith)
  | inl (mid, z) ↦
      let v = sound d visited mid t z in
      let (t', a, g) = dependencies-Visits nodes f ds mid out sound v.ordered (ground arith) in
      (t', (g d v.has, a), λ x c. g x (v.grows x c))
]

visit-Sound :
    (fuel : ℕ) (nodes : Assoc Node) (visiting : List String)
    → Sound nodes (visit fuel nodes visiting)
unfolding visit
visit-Sound zero nodes visiting d visited out t h = cc
visit-Sound (suc fuel) nodes visiting d visited out t h = elim (Bool-cases (contains visiting d)) [
  | inl z ↦ absurd (ground arith)
  | inr z ↦ elim (Bool-cases (contains visited d)) [
    | inl old ↦
        let same : visited ≡ out = ground arith in
        subst (Visits nodes visited d) same (record { ordered = t; has = old; grows = λ x c. c })
    | inr new ↦ elim (Option-cases (lookup d nodes)) [
      | inl e ↦ absurd (ground arith)
      | inr (n, l) ↦
          let inner = visit fuel nodes (d ∷ visiting) in
          elim (Fallible-cases (visit_dependencies inner nodes n.dependencies visited)) [
            | inr (x, e) ↦ absurd (ground arith)
            | inl (mid, e) ↦
                let (t', a, g) =
                  dependencies-Visits nodes inner n.dependencies visited mid
                    (visit-Sound fuel nodes (d ∷ visiting)) t e in
                let same : d ∷ mid ≡ out = ground arith in
                subst (Visits nodes visited d) same (record {
                  ordered = ((n, l, a), t');
                  has = ground (arith, eq_refl d);
                  grows = λ x c. ground (arith, g x c);
                })
          ]
    ]
  ]
]

visit_all-Visits :
    (fuel : ℕ) (nodes : Assoc Node) (ids visited out : List String)
    → IsTopological nodes visited
    → visit_all fuel nodes ids visited ≡ ok out
    → (IsTopological nodes out)
      × ((x : String) → (contains ids x || contains visited x) ≡ true → contains out x ≡ true)
unfolding visit_all
visit_all-Visits fuel nodes [] visited out t h =
    let same : visited ≡ out = ground arith in
    (subst (IsTopological nodes) same t, λ x c. subst (λ o. contains o x ≡ true) same c)
visit_all-Visits fuel nodes (i ∷ ids) visited out t h =
    elim (Fallible-cases (visit fuel nodes [] i visited)) [
      | inr (e, z) ↦ absurd (ground arith)
      | inl (mid, z) ↦
          let v = visit-Sound fuel nodes [] i visited mid t z in
          let (t', g) = visit_all-Visits fuel nodes ids mid out v.ordered (ground arith) in
          (t', λ x c. g x (reached mid v x c))
    ]
  where
    reached :
        (mid : List String)
        → Visits nodes visited i mid
        → (x : String) → (contains (i ∷ ids) x || contains visited x) ≡ true
        → (contains ids x || contains mid x) ≡ true
    reached mid v x c = elim (Bool-cases (contains visited x)) [
      | inl old ↦ ground (arith, v.grows x old)
      | inr new ↦ elim (Bool-cases (i == x)) [
        | inl here ↦
            let same : i ≡ x = (eq_iff i x).0 here in
            ground (arith, subst (λ y. contains mid y ≡ true) same v.has)
        | inr other ↦ ground arith
      ]
    ]

search_order-IsTopological :
    (nodes : Assoc Node) (out : List String)
    → search_order nodes ≡ ok out
    → (IsTopological nodes out)
      × ((x : String) → is_some (lookup x nodes) ≡ true → contains out x ≡ true)
unfolding search_order
search_order-IsTopological nodes out h =
    let (t, g) =
      visit_all-Visits (suc (length nodes)) nodes (sort_strings (keys nodes)) [] out tt h in
    (
      t,
      λ x known.
          g x (ground (arith, contains-sort_strings (keys nodes) x, contains-keys nodes x, known)),
    )

-- What the search accepts has known dependencies and no cycle.
pub validate_dag_sound :
    (w : Workflow) → validate_dag w ≡ ok tt → IsClosed w.nodes × IsAcyclic w.nodes
unfolding validate_dag
validate_dag_sound w h = elim (Fallible-cases (search_order w.nodes)) [
  | inr (e, z) ↦ absurd (ground arith)
  | inl (out, z) ↦
      let (t, all) = search_order-IsTopological w.nodes out z in
      (topological-IsClosed w.nodes out t all, topological-IsAcyclic w.nodes out t all)
]
