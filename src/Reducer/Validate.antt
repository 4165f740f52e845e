-- ===== src/Reducer/Validate.antt =====
-- validateState of internal/supervisor/reducer.go: the checks of a reduced state, in their order.
pub mod Leases
use durable_agent_handoff.Prelude.{
  String, Bool, false, not, ◌&&◌, ◌||◌, none, some, List, [], ◌∷◌, ◌==◌, blank, Assoc, lookup, put,
  values, ltb, eqb, if◌then◌else◌, is_none, is_empty, any, count, fenced, invalid, Fallible, ok,
  ◌>>=◌, ◌>>◌, refuse, or_fail, for_each,
}
use durable_agent_handoff.Types.{
  is_zero, is_prepared, is_settled, is_turn_started, is_result, is_completed_phase, is_known_phase,
  RuntimeSpec, Workflow, Finalization, ResultBinding, Activity, Attempt, Result, Pause, Lease,
  State,
}
use durable_agent_handoff.Environment.{Environment}
use durable_agent_handoff.Paths.{within_root}
use durable_agent_handoff.Runtimes.{validate_runtime}
use durable_agent_handoff.Reducer.Dag.{validate_dag}

-- activeRoots[worktree] != "": a root counts as held under a lease with an identity.
unfoldable pub is_held : Assoc String → String → Bool
is_held roots worktree = elim (lookup worktree roots) [ none ↦ false | some id ↦ not (id == "") ]

-- A lease names its attempt and its activity's generation.
unfoldable pub validate_lease : State → String → Lease → Fallible (Unit {0})
validate_lease s id l = do
  a ← or_fail (lookup l.attempt_id s.attempts) (invalid "lease is not fenced to its exact attempt")
  b ←
      or_fail (lookup l.activity_id s.activities)
        (invalid "lease is not fenced to its exact attempt")
  refuse
      (not (a.lease_id == id)
        || not (a.activity_id == b.id)
        || not (eqb b.generation l.activity_generation))
      (invalid "lease is not fenced to its exact attempt")

unfoldable pub validate_leases : State → Assoc String → Assoc Lease → Fallible (Unit {0})
unfolding is_held
validate_leases s roots [] = ok tt
validate_leases s roots ((id, l) ∷ m) = validate_lease s id l >>= λ _.
    refuse (is_zero l.released_at && is_held roots l.canonical_worktree)
      (invalid "canonical worktree has two active leases")
    >>= λ _.
        validate_leases s
          (if is_zero l.released_at then put l.canonical_worktree id roots else roots) m

unfoldable pub validate_binding : State → ResultBinding → Fallible (Unit {0})
validate_binding s b = do
  r ←
      or_fail (lookup b.result_id s.results)
        (invalid "activity has invalid immutable result binding")
  refuse (not (r.node_id == b.dependency_node_id))
      (invalid "activity has invalid immutable result binding")

unfoldable pub validate_activity : State → String × Activity → Fallible (Unit {0})
unfolding validate_binding
validate_activity s (id, a) = do
  w ←
      or_fail (lookup a.workflow_id s.workflows)
        (invalid "activity has broken workflow, node, or session identity")
  refuse (is_none (lookup a.node_id w.nodes) || is_none (lookup a.session_id s.sessions))
      (invalid "activity has broken workflow, node, or session identity")
  for_each (validate_binding s) a.dependency_bindings

unfoldable pub validate_attempt : State → String × Attempt → Fallible (Unit {0})
validate_attempt s (id, a) = do
  b ←
      or_fail (lookup a.activity_id s.activities)
        (invalid "attempt has invalid activity generation")
  refuse (not (eqb b.generation a.activity_generation))
      (invalid "attempt has invalid activity generation")
  refuse
      (ltb 1 (count (λ m. is_turn_started m.kind) a.milestones)
        || ltb 1 (count (λ m. is_result m.kind) a.milestones))
      (invalid "attempt contains duplicate turn or result milestones")

unfoldable pub validate_fenced : State → String → String → Fallible (Unit {0})
validate_fenced s workflow_id attempt_id = do
  a ← or_fail (lookup attempt_id s.attempts) (invalid "pause fences unknown attempt")
  b ←
      or_fail (lookup a.activity_id s.activities)
        (invalid "pause fences attempt from another workflow")
  refuse (not (b.workflow_id == workflow_id)) (invalid "pause fences attempt from another workflow")

unfoldable pub validate_pause : State → String × Pause → Fallible (Unit {0})
unfolding validate_fenced
validate_pause s (id, p) = do
  refuse
      (is_none (lookup id s.workflows)
        || not (p.workflow_id == id)
        || not (is_known_phase p.phase)
        || (is_completed_phase p.phase && is_zero p.completed_at)
        || (not (is_completed_phase p.phase) && not (is_zero p.completed_at)))
      (invalid "pause has broken workflow identity")
  for_each (validate_fenced s id) p.fenced_attempt_ids

unfoldable pub validate_result : State → String × Result → Fallible (Unit {0})
validate_result s (id, r) = do
  a ← or_fail (lookup r.activity_id s.activities) (invalid "result has broken immutable provenance")
  t ← or_fail (lookup r.attempt_id s.attempts) (invalid "result has broken immutable provenance")
  refuse
      (not (r.node_id == a.node_id)
        || not (t.activity_id == a.id)
        || not (eqb r.generation a.generation))
      (invalid "result has broken immutable provenance")

abbrev pub is_merge_method : String → Bool
is_merge_method m = m == "merge" || m == "squash" || m == "rebase"

unfoldable pub validate_finalization : State → String × Finalization → Fallible (Unit {0})
validate_finalization s (id, f) = do
  e ←
      or_fail (lookup f.execution_id s.executions)
        (invalid "finalization has broken durable publication identity")
  refuse
      (not (f.id == id)
        || not (e.workflow_id == f.workflow_id)
        || is_none (lookup f.workflow_id s.workflows)
        || blank f.idempotency_key
        || blank f.repository
        || blank f.pull_request
        || not (is_merge_method f.method)
        || not (is_prepared f.state || is_settled f.state)
        || blank f.head_sha
        || is_empty f.gates)
      (invalid "finalization has broken durable publication identity")
  refuse
      ((is_prepared f.state && not (is_zero f.completed_at))
        || (not (is_prepared f.state) && is_zero f.completed_at))
      (invalid "finalization has broken terminal state")

-- Each candidate is valid and has a provider name of its own.
unfoldable pub validate_candidates :
    Environment → List String → List RuntimeSpec → Fallible (Unit {0})
validate_candidates env seen [] = ok tt
validate_candidates env seen (c ∷ cs) = validate_runtime env c >>= λ _.
    refuse (any (λ n. n == c.name) seen) (invalid "role ladder reuses provider identity") >>= λ _.
    validate_candidates env (c.name ∷ seen) cs

unfoldable pub validate_ladder : Environment → String × List RuntimeSpec → Fallible (Unit {0})
unfolding validate_candidates
validate_ladder env (role, candidates) = do
  refuse (role == "" || is_empty candidates) (invalid "role ladder is empty")
  validate_candidates env [] candidates

-- withinRoot cleans the paths that it is given, which cleaning them before does not change.
unfoldable pub validate_workflow : String × Workflow → Fallible (Unit {0})
validate_workflow (id, w) = do
  validate_dag w
  for_each
      (λ n.
        refuse (not (within_root w.root n.work.root))
          (invalid "node root is outside its canonical workflow root"))
      (values w.nodes)

unfoldable pub validate_state : Environment → State → Fallible (Unit {0})
validate_state env s = do
  validate_leases s [] s.leases
  for_each (validate_activity s) s.activities
  for_each (validate_attempt s) s.attempts
  for_each (validate_pause s) s.pauses
  for_each (validate_result s) s.results
  for_each (validate_finalization s) s.finalizations
  for_each (validate_ladder env) s.role_ladders
  for_each validate_workflow s.workflows
