-- ===== src/Commands/Finalizer.antt =====
-- prepareFinalizationCommand and settleFinalizationCommand of internal/supervisor/finalizer.go, with
-- ProjectPublication of internal/supervisor/projection.go. Of the view of the execution, preparation
-- reads only the publication.
pub mod Publication
use durable_agent_handoff.Prelude.{
  String, Bool, true, false, not, ◌&&◌, ◌||◌, Option, none, some, List, [], ◌∷◌, ◌==◌, blank, Assoc,
  lookup, eqb, if◌then◌else◌, is_empty, length, invalid, Fallible, ok, ◌>>=◌, ◌>>◌, refuse, or_fail,
  join,
}
use durable_agent_handoff.Types.{
  Time, is_zero, after, FinalizationState, is_prepared, is_settled, Execution, Node, Workflow,
  Finalization, Result, State,
}
use durable_agent_handoff.Environment.{Environment, stable_id}
use durable_agent_handoff.Events.{DomainEvent}
use durable_agent_handoff.Queries.{latest_result_for_node}
use durable_agent_handoff.Reducer.Dag.{sort_strings, contains}
use durable_agent_handoff.Reducer.Validate.{is_merge_method}
use durable_agent_handoff.Commands.{Decision}
use durable_agent_handoff.Commands.Start.Starting.{unique_strings}

pub record PrepareFinalizationInput : Type 0 where
  pub execution_id : String
  pub repository : String
  pub pull_request : String
  pub gates : List String
  pub method : String
  pub human_approved : Bool
  pub head_sha : String
  pub pr_url : String
  pub idempotency_key : String

pub record SettleFinalizationInput : Type 0 where
  pub finalization_id : String
  pub state : FinalizationState
  pub summary : String
  pub pr_url : String
  pub idempotency_key : String

pub data PublicationState : Type 0 where
  disabled awaiting_result awaiting_human eligible : PublicationState

abbrev pub is_later : Result → Option Result → Bool
is_later r none = true
is_later r (some latest) = after r.created_at latest.created_at

-- The loop over the nodes: none where a node has no result, and otherwise the latest result.
unfoldable pub latest_of_nodes :
    State → String → Option Result → Assoc Node → Option (Option Result)
latest_of_nodes s workflow_id latest [] = some latest
latest_of_nodes s workflow_id latest ((id, n) ∷ rest) =
    if not (is_zero n.superseded_at)
    then latest_of_nodes s workflow_id latest rest
    else elim (latest_result_for_node s workflow_id id) [
      | none ↦ none
      | some r ↦ latest_of_nodes s workflow_id (if is_later r latest then some r else latest) rest
    ]

unfoldable pub project_publication : Workflow → State → PublicationState
project_publication w s =
    if not w.finalizer.enabled
    then PublicationState.disabled
    else elim (latest_of_nodes s w.id none w.nodes) [
      | none ↦ PublicationState.awaiting_result
      | some none ↦ PublicationState.awaiting_result
      | some (some r) ↦
          if w.finalizer.require_human
          then PublicationState.awaiting_human
          else PublicationState.eligible
    ]

-- fmt.Sprint of a list of texts
unfoldable pub spaced : List String → String
spaced [] = ""
spaced (x ∷ []) = x
spaced (x ∷ y ∷ ys) = join x (join " " (spaced (y ∷ ys)))

unfoldable pub same_strings : List String → List String → Bool
same_strings left right =
    eqb (length left) (length right)
    && join "[" (join (spaced (sort_strings left)) "]")
      == join "[" (join (spaced (sort_strings right)) "]")

-- The gates so far, and the gates that are left.
unfoldable pub check_gates : List String → List String → Fallible (Unit {0})
check_gates seen [] = ok tt
check_gates seen (g ∷ gs) =
    refuse (blank g) (invalid "finalization gates must be non-empty") >>= λ _.
    refuse (contains seen g) (invalid "finalization gates must not contain duplicates") >>= λ _.
    check_gates (g ∷ seen) gs

unfoldable pub exact_finalizer_checks : List String → List String → Fallible (List String)
exact_finalizer_checks requested configured = do
  refuse (is_empty configured) (invalid "finalizer requires configured named checks")
  refuse (is_empty requested) (invalid "finalization requires the configured named checks")
  check_gates [] requested
  refuse (not (same_strings requested (unique_strings (sort_strings configured))))
      (invalid "finalization gates must exactly match configured checks")
  ok (unique_strings (sort_strings configured))

abbrev pub fallback_method : String → String
fallback_method method = if method == "" then "squash" else method

abbrev pub may_publish : PublicationState → Bool → Bool
may_publish PublicationState.eligible approved = true
may_publish PublicationState.awaiting_human approved = approved
may_publish _ approved = false

unfoldable pub new_finalization :
    Environment → PrepareFinalizationInput → Execution → List String → Time → Finalization
new_finalization env i e gates now = record {
  id = stable_id env "finalization" i.idempotency_key;
  execution_id = i.execution_id;
  workflow_id = e.workflow_id;
  idempotency_key = i.idempotency_key;
  repository = i.repository;
  pull_request = i.pull_request;
  gates = gates;
  method = fallback_method i.method;
  human_approved = i.human_approved;
  head_sha = i.head_sha;
  pr_url = i.pr_url;
  state = FinalizationState.prepared;
  summary = "";
  prepared_at = now;
  completed_at = 0;
}

unfoldable pub prepare_finalization :
    Environment → PrepareFinalizationInput → State → Time → Decision
prepare_finalization env i s now = do
  refuse (blank i.repository || blank i.pull_request || blank i.head_sha || is_empty i.gates)
      (invalid "finalization requires repository, pull request, exact head, and named gates")
  e ← or_fail (lookup i.execution_id s.executions) (invalid "execution does not exist")
  w ← or_fail (lookup e.workflow_id s.workflows) (invalid "finalizer is disabled")
  refuse (not w.finalizer.enabled) (invalid "finalizer is disabled")
  gates ← exact_finalizer_checks i.gates w.finalizer.required_checks
  refuse (w.finalizer.require_human && not i.human_approved)
      (invalid "finalizer requires explicit human approval")
  refuse (not (is_merge_method (fallback_method i.method))) (invalid "unsupported merge method")
  refuse (not (may_publish (project_publication w s) i.human_approved))
      (invalid "publication is not eligible")
  ok (
    DomainEvent.finalization_prepared (some (new_finalization env i e gates now)) ∷ [],
    stable_id env "finalization" i.idempotency_key,
  )

unfoldable pub settle_finalization : SettleFinalizationInput → State → Time → Decision
settle_finalization i s now = do
  refuse (not (is_settled i.state))
      (invalid "finalization settlement requires merged or blocked state")
  refuse (blank i.summary) (invalid "finalization settlement requires a summary")
  f ← or_fail (lookup i.finalization_id s.finalizations) (invalid "finalization is not prepared")
  refuse (not (is_prepared f.state)) (invalid "finalization is not prepared")
  ok (
    DomainEvent.finalization_settled (record {
      id = i.finalization_id;
      state = i.state;
      summary = i.summary;
      completed_at = now;
      pr_url = i.pr_url;
    })
        ∷ [],
    i.finalization_id,
  )
