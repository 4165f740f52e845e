-- ===== src/Commands/Finalizer/Publication.antt =====
-- What a prepared publication rests on, of prepareFinalizationCommand, and that the reducer takes it.
use durable_agent_handoff.Prelude.{
  String, ◌≡◌, refl, sym, ◌∙◌, subst, inl, inr, Bool, true, false, ◌||◌, Option, none, some, List,
  [], ◌∷◌, arith, eq_refl, blank, Assoc, lookup, put, if◌then◌else◌, Bool-cases, Option-cases,
  is_some, is_empty, All, ok, Fallible-cases,
}
use durable_agent_handoff.Types.{Time, is_zero, Execution, Node, Workflow, Result, State}
use durable_agent_handoff.Environment.{Environment, stable_id}
use durable_agent_handoff.Events.{DomainEvent}
use durable_agent_handoff.Queries.{latest_result_for_node}
use durable_agent_handoff.Reducer.Dag.{sort_strings, insert_sorted}
use durable_agent_handoff.Reducer.Validate.{is_merge_method}
use durable_agent_handoff.Reducer.{apply_domain_event, apply_events}
use durable_agent_handoff.Reducer.Effects.{apply_finalization_prepared}
use durable_agent_handoff.Commands.Start.Starting.{unique_strings}
use durable_agent_handoff.Commands.Finalizer.{
  PrepareFinalizationInput, latest_of_nodes, project_publication, exact_finalizer_checks,
  fallback_method, may_publish, new_finalization, prepare_finalization, is_later,
}

-- Each node that is not superseded has a completed result.
abbrev pub HasResults : State → String → Assoc Node → Type 0
HasResults s workflow_id nodes =
    All (λ x. x.1.superseded_at ≡ 0 → is_some (latest_result_for_node s workflow_id x.0) ≡ true)
      nodes

latest_of_nodes-HasResults :
    (s : State) (workflow_id : String) (latest : Option Result) (nodes : Assoc Node)
    → is_some (latest_of_nodes s workflow_id latest nodes) ≡ true
    → HasResults s workflow_id nodes
unfolding latest_of_nodes
latest_of_nodes-HasResults s workflow_id latest [] h = tt
latest_of_nodes-HasResults s workflow_id latest ((id, n) ∷ rest) h =
    elim (Bool-cases (is_zero n.superseded_at)) [
      | inl z ↦ elim (Option-cases (latest_result_for_node s workflow_id id)) [
        | inl e ↦ absurd (ground arith)
        | inr (r, e) ↦ (
          (λ x. ground arith),
          latest_of_nodes-HasResults s workflow_id (if is_later r latest then some r else latest)
              rest (ground arith),
        )
      ]
      | inr z ↦ (
        (λ x. absurd (ground arith)),
        latest_of_nodes-HasResults s workflow_id latest rest (ground arith),
      )
    ]

project_publication-HasResults :
    (w : Workflow) (s : State) (approved : Bool)
    → may_publish (project_publication w s) approved ≡ true
    → HasResults s w.id w.nodes
unfolding project_publication
project_publication-HasResults w s approved h =
    latest_of_nodes-HasResults s w.id none w.nodes (ground arith)

is_empty-insert_sorted : (x : String) (xs : List String) → is_empty (insert_sorted x xs) ≡ false
unfolding insert_sorted
is_empty-insert_sorted x [] = refl
is_empty-insert_sorted x (y ∷ ys) = ground arith

is_empty-unique_strings : (xs : List String) → is_empty (unique_strings xs) ≡ is_empty xs
unfolding unique_strings
is_empty-unique_strings [] = refl
is_empty-unique_strings (x ∷ xs) = refl

is_empty-canonical :
    (xs : List String) → is_empty xs ≡ false → is_empty (unique_strings (sort_strings xs)) ≡ false
unfolding sort_strings
is_empty-canonical [] h = absurd (ground arith)
is_empty-canonical (x ∷ xs) h =
    is_empty-unique_strings (insert_sorted x (sort_strings xs))
    ∙ is_empty-insert_sorted x (sort_strings xs)

exact_finalizer_checks-eq :
    (requested configured gates : List String)
    → exact_finalizer_checks requested configured ≡ ok gates
    → (gates ≡ unique_strings (sort_strings configured)) × (is_empty configured ≡ false)
unfolding exact_finalizer_checks
exact_finalizer_checks-eq requested configured gates h = (ground arith, ground arith)

-- What a preparation rests on.
pub record IsPublishable (env : Environment) (i : PrepareFinalizationInput) (s : State) (now : Time)
    (d : List DomainEvent × String) : Type 0 where
  pub execution : Execution
  pub workflow : Workflow
  pub execution_found : lookup i.execution_id s.executions ≡ some execution
  pub workflow_found : lookup execution.workflow_id s.workflows ≡ some workflow
  pub named : (blank i.repository || blank i.pull_request || blank i.head_sha) ≡ false
  pub configured : is_empty workflow.finalizer.required_checks ≡ false
  pub enabled : workflow.finalizer.enabled ≡ true
  pub approved : workflow.finalizer.require_human ≡ true → i.human_approved ≡ true
  pub mergeable : is_merge_method (fallback_method i.method) ≡ true
  pub results : HasResults s workflow.id workflow.nodes
  pub prepared :
      d.0
      ≡ DomainEvent.finalization_prepared (
          some (
            new_finalization env i execution
              (unique_strings (sort_strings workflow.finalizer.required_checks))
              now))
        ∷ []

open_preparation :
    (env : Environment) (i : PrepareFinalizationInput) (s : State) (now : Time)
    (d : List DomainEvent × String)
    → prepare_finalization env i s now ≡ ok d
    → IsPublishable env i s now d
unfolding prepare_finalization
open_preparation env i s now d h = elim (Option-cases (lookup i.execution_id s.executions)) [
  | inl z ↦ absurd (ground arith)
  | inr (e, he) ↦ elim (Option-cases (lookup e.workflow_id s.workflows)) [
    | inl z ↦ absurd (ground arith)
    | inr (w, hw) ↦
        elim (Fallible-cases (exact_finalizer_checks i.gates w.finalizer.required_checks)) [
          | inr (x, z) ↦ absurd (ground arith)
          | inl (gates, hg) ↦
              let (exact, given) =
                exact_finalizer_checks-eq i.gates w.finalizer.required_checks gates hg in
              record {
                execution = e;
                workflow = w;
                execution_found = he;
                workflow_found = hw;
                named = ground arith;
                configured = given;
                enabled = ground arith;
                approved = λ x. ground arith;
                mergeable = ground arith;
                results = project_publication-HasResults w s i.human_approved (ground arith);
                prepared = ground (arith, exact);
              }
        ]
  ]
]

taken :
    (env : Environment) (i : PrepareFinalizationInput) (s : State) (now : Time) (e : Execution)
    (gates : List String)
    → lookup i.execution_id s.executions ≡ some e
    → (blank i.repository || blank i.pull_request || blank i.head_sha) ≡ false
    → is_empty gates ≡ false
    → is_zero now ≡ false
    → lookup (stable_id env "finalization" i.idempotency_key) s.finalizations ≡ none
    → (t : State) × (apply_events s
          (DomainEvent.finalization_prepared (some (new_finalization env i e gates now)) ∷ [])
        ≡ ok t)
unfolding apply_events apply_domain_event apply_finalization_prepared new_finalization
taken env i s now e gates he named g z new =
    let f = new_finalization env i e gates now in
    (record s { finalizations = put f.id f s.finalizations }, ground (arith, eq_refl e.workflow_id))

-- A publication that is prepared rests on an enabled finalizer, the human approval that it requires,
-- a completed result of each node that is not superseded and a known merge method, and captures
-- exactly the configured checks, sorted and without repeats. If its identity is new and the clock is
-- set, the reducer takes it.
pub prepare_finalization-taken :
    (env : Environment) (i : PrepareFinalizationInput) (s : State) (now : Time)
    (d : List DomainEvent × String)
    → is_zero now ≡ false
    → lookup (stable_id env "finalization" i.idempotency_key) s.finalizations ≡ none
    → prepare_finalization env i s now ≡ ok d
    → IsPublishable env i s now d × ((t : State) × (apply_events s d.0 ≡ ok t))
prepare_finalization-taken env i s now d z new h =
    let p = open_preparation env i s now d h in
    let gates = unique_strings (sort_strings p.workflow.finalizer.required_checks) in
    (
      p,
      subst (λ es. (t : State) × (apply_events s es ≡ ok t)) (sym p.prepared)
          (taken env i s now p.execution gates p.execution_found p.named
            (is_empty-canonical p.workflow.finalizer.required_checks p.configured) z new),
    )
