-- ===== src/Reducer/Work.antt =====
-- applyDomainEvent of internal/supervisor/reducer.go, the events that add work: executions, nodes,
-- activities, fallback sessions, role ladders and legacy imports.
use durable_agent_handoff.Prelude.{
  String, not, ◌&&◌, ◌||◌, Option, none, some, List, [], ◌∷◌, ◌++◌, ◌==◌, Assoc, lookup, put,
  if◌then◌else◌, is_some, is_empty, invalid, Fallible, ok, ◌>>=◌, ◌>>◌, refuse, or_fail,
}
use durable_agent_handoff.Types.{
  Time, is_zero, RuntimeSpec, Node, Workflow, Session, Activity, State,
}
use durable_agent_handoff.Events.{ExecutionStarted, LegacyImported}

-- lookupNode
unfoldable pub lookup_node : State → String → String → Option Node
lookup_node s workflow_id node_id = elim (lookup workflow_id s.workflows) [
  | none ↦ none
  | some w ↦ lookup node_id w.nodes
]

-- Goal settings of journals written before they were flattened.
unfoldable pub migrate_goal : Workflow → Workflow
migrate_goal w = elim w.old_goal [
  | none ↦ record w { old_goal = none }
  | some g ↦
      if w.evaluator_model == "" && g.enabled
      then record w {
        evaluator_model = g.evaluator_model;
        max_turns = g.max_turns;
        old_goal = none;
      }
      else record w { old_goal = none }
]

unfoldable pub add_node : Workflow → Node → Workflow
add_node w n = record w { nodes = put n.id n w.nodes; order = w.order ++ n.id ∷ [] }

unfoldable pub apply_execution_started : State → ExecutionStarted → Fallible State
unfolding migrate_goal add_node
apply_execution_started s d = do
  e ← or_fail d.execution (invalid "execution start event is incomplete")
  w ← or_fail d.workflow (invalid "execution start event is incomplete")
  n ← or_fail d.node (invalid "execution start event is incomplete")
  x ← or_fail d.session (invalid "execution start event is incomplete")
  a ← or_fail d.activity (invalid "execution start event is incomplete")
  refuse
      (is_some (lookup e.id s.executions)
        || is_some (lookup w.id s.workflows)
        || is_some (lookup x.id s.sessions)
        || is_some (lookup a.id s.activities))
      (invalid "execution start event reuses a durable identity")
  ok (record s {
    executions = put e.id e s.executions;
    workflows = put w.id (add_node (migrate_goal w) n) s.workflows;
    sessions = put x.id x s.sessions;
    activities = put a.id a s.activities;
  })

unfoldable pub apply_node_added : State → Option Node → Fallible State
unfolding add_node
apply_node_added s node = do
  n ← or_fail node (invalid "node event is incomplete")
  w ←
      or_fail (lookup n.workflow_id s.workflows)
        (invalid "node event targets an unknown workflow or duplicate node")
  refuse (is_some (lookup n.id w.nodes))
      (invalid "node event targets an unknown workflow or duplicate node")
  ok (record s { workflows = put n.workflow_id (add_node w n) s.workflows })

unfoldable pub apply_node_superseded : State → String → String → Time → Fallible State
apply_node_superseded s workflow_id node_id at = do
  w ← or_fail (lookup workflow_id s.workflows) (invalid "supersede event targets an unknown node")
  n ← or_fail (lookup node_id w.nodes) (invalid "supersede event targets an unknown node")
  refuse (not (is_zero n.superseded_at)) (invalid "node is already superseded")
  refuse (is_zero at) (invalid "supersede event omitted immutable timestamp")
  ok (record s {
    workflows =
        put workflow_id (record w { nodes = put node_id (record n { superseded_at = at }) w.nodes })
          s.workflows;
  })

unfoldable pub apply_activity_queued : State → Option Activity → Fallible State
apply_activity_queued s activity = do
  a ← or_fail activity (invalid "activity event is incomplete or duplicate")
  refuse (is_some (lookup a.id s.activities)) (invalid "activity event is incomplete or duplicate")
  ok (record s { activities = put a.id a s.activities })

unfoldable pub apply_fallback_queued : State → Option Session → Option Activity → Fallible State
apply_fallback_queued s session activity = do
  x ← or_fail session (invalid "fallback event is incomplete or duplicate")
  a ← or_fail activity (invalid "fallback event is incomplete or duplicate")
  refuse (is_some (lookup x.id s.sessions) || is_some (lookup a.id s.activities))
      (invalid "fallback event is incomplete or duplicate")
  w ← or_fail (lookup a.workflow_id s.workflows) (invalid "fallback event has broken lineage")
  parent ←
      or_fail (lookup a.parent_activity_id s.activities)
        (invalid "fallback event has broken lineage")
  refuse
      (not (parent.workflow_id == w.id)
        || not (x.workflow_id == w.id)
        || not (a.session_id == x.id)
        || a.parent_activity_id == a.id)
      (invalid "fallback event has broken lineage")
  ok (record s { sessions = put x.id x s.sessions; activities = put a.id a s.activities })

unfoldable pub apply_role_ladder_set : State → String → List RuntimeSpec → Fallible State
apply_role_ladder_set s role candidates = do
  refuse (role == "" || is_empty candidates) (invalid "role ladder event is incomplete")
  ok (record s { role_ladders = put role candidates s.role_ladders })

-- for _, v := range values { state.M[v.ID] = v }
put_all : {V : Type 0} → (V → String) → List V → Assoc V → Assoc V
put_all key [] m = m
put_all key (v ∷ vs) m = put_all key vs (put (key v) v m)

unfoldable pub apply_legacy_imported : State → LegacyImported → Fallible State
unfolding put_all
apply_legacy_imported s d = do
  refuse (is_some (lookup d.import.source_digest s.legacy_imports))
      (invalid "legacy source digest was already imported")
  ok (record s {
    executions = put_all (λ e. e.id) d.executions s.executions;
    workflows = put_all (λ w. w.id) d.workflows s.workflows;
    sessions = put_all (λ x. x.id) d.sessions s.sessions;
    activities = put_all (λ a. a.id) d.activities s.activities;
    attempts = put_all (λ a. a.id) d.attempts s.attempts;
    results = put_all (λ r. r.id) d.results s.results;
    legacy_imports = put d.import.source_digest d.import s.legacy_imports;
  })
