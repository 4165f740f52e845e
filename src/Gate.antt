-- ===== src/Gate.antt =====
-- internal/githubgate/gate.go, and what Finalize of internal/supervisor/finalizer.go does with it for a
-- prepared publication. The gh program, with the decoding of what it prints, is an argument.
pub mod Exact
use durable_agent_handoff.Prelude.{
  ℕ, ◌-◌, String, Bool, true, false, not, ◌&&◌, ◌||◌, Option, none, some, List, [], ◌∷◌, ◌==◌,
  blank, lookup, leb, eqb, if◌then◌else◌, is_empty, Error, idempotency_conflict, invalid, Fallible,
  ok, err, ◌>>=◌, ◌>>◌, refuse, or_fail, for_each, join,
}
use durable_agent_handoff.Types.{before, after, FinalizationState, Finalization, State}
use Prim.Native.Char.{code}
use durable_agent_handoff.Commands.Finalizer.{fallback_method, same_strings, exact_finalizer_checks}
use durable_agent_handoff.Environment.{Environment, stable_id}
use durable_agent_handoff.Reducer.Validate.{is_merge_method}

pub record Check : Type 0 where
  pub name : String
  pub status : String
  pub conclusion : String

pub record Pr : Type 0 where
  pub url : String
  pub head_oid : String
  pub merge_state : String
  pub state : String
  pub merged_at : String
  pub checks : List Check

-- gh pr view with its arguments, decoded, and gh pr merge, which returns an error or not.
pub record Runner : Type 0 where
  pub view : List String → Fallible Pr
  pub merge : List String → Fallible (Unit {0})

-- strings.ToUpper and the folding of strings.EqualFold, as far as they reach the letters of ASCII.
abbrev upper : ℕ → ℕ
upper c =
    if leb 97 c && leb c 122
    then c - 32
    else if eqb c 0x131
    then 73
    else if eqb c 0x17f
    then 83
    else c

abbrev fold : ℕ → ℕ
fold c =
    if leb 97 c && leb c 122
    then c - 32
    else if eqb c 0x212a
    then 75
    else if eqb c 0x17f
    then 83
    else c

-- Whether a text is equal to a text of capital letters, after a change of its characters.
unfoldable pub is_changed_to : (ℕ → ℕ) → String → String → Bool
is_changed_to change String.[] String.[] = true
is_changed_to change String.[] (String.◌∷◌ d t) = false
is_changed_to change (String.◌∷◌ c s) String.[] = false
is_changed_to change (String.◌∷◌ c s) (String.◌∷◌ d t) =
    eqb (change (code c)) (code d) && is_changed_to change s t

abbrev pub is_success : Check → Bool
is_success c =
    is_changed_to upper c.status "COMPLETED" && is_changed_to upper c.conclusion "SUCCESS"

-- The loop over the checks for a gate, and whether it was found so far.
unfoldable pub check_gate : String → Bool → List Check → Fallible (Unit {0})
check_gate gate found [] = refuse (not found) (invalid "gate %q was not found")
check_gate gate found (c ∷ cs) = elim (c.name == gate) [
  | true ↦ refuse (not (is_success c)) (invalid "gate %q is %s/%s") >> check_gate gate true cs
  | false ↦ check_gate gate found cs
]

abbrev pub is_stopped : Pr → Bool
is_stopped p =
    is_changed_to fold p.merge_state "DIRTY" || is_changed_to fold p.merge_state "BLOCKED"

unfoldable pub verify : Pr → List String → Fallible (Unit {0})
verify p gates = do
  refuse (p.head_oid == "") (invalid "pull request head SHA is empty")
  refuse (is_empty gates) (invalid "at least one named gate is required")
  for_each (λ gate. check_gate gate false p.checks) gates
  refuse (is_stopped p) (invalid "pull request merge state is %s")

abbrev pub view_arguments : String → String → List String
view_arguments repository pr =
    "pr" ∷ "view" ∷ pr ∷ "--repo" ∷ repository ∷ "--json"
    ∷ "number,url,headRefOid,mergeStateStatus,statusCheckRollup,state,mergedAt" ∷ []

abbrev pub inspect : Runner → String → String → Fallible Pr
inspect runner repository pr = runner.view (view_arguments repository pr)

abbrev pub merge_arguments : String → String → String → String → List String
merge_arguments repository pr head method =
    "pr"
    ∷ "merge"
    ∷ pr
    ∷ "--repo"
    ∷ repository
    ∷ "--match-head-commit"
    ∷ head
    ∷ join "--" method
    ∷ []

unfoldable pub merge_at_head : Runner → (repository pr head method : String) → Fallible (Unit {0})
merge_at_head runner repository pr head method = do
  refuse (blank head) (invalid "pull request head SHA is empty")
  refuse (not (is_merge_method (fallback_method method))) (invalid "unsupported merge method %q")
  runner.merge (merge_arguments repository pr head (fallback_method method))

unfoldable pub merge :
    Runner → (repository pr : String) → List String → (method : String) → Fallible Pr
merge runner repository pr gates method = do
  before ← inspect runner repository pr
  verify before gates
  merge_at_head runner repository pr before.head_oid method
  ok before

-- What Finalize does with a prepared publication: it keeps it, to be tried again, with an error, or
-- settles it with a state, a summary, an address and the error to return.
pub data Outcome : Type 0 where
  keeps : Error → Outcome
  settles : FinalizationState → String → String → Option Error → Outcome

abbrev pub is_merged_pr : Pr → Bool
is_merged_pr p = is_changed_to fold p.state "MERGED" || not (p.merged_at == "")

abbrev pub after_merge : Finalization → Fallible (Unit {0}) → Outcome
after_merge f (err e) = Outcome.keeps e
after_merge f (ok _) =
    Outcome.settles FinalizationState.merged
      "merged after exact named gates passed on unchanged head" f.pr_url none

-- err.Error(), without its variable parts
abbrev error_text : Error → String
error_text (invalid text) = text
error_text _ = ""

abbrev pub after_verify : Runner → Finalization → Fallible (Unit {0}) → Outcome
after_verify runner f (err e) =
    Outcome.settles FinalizationState.blocked (error_text e) f.pr_url (some e)
after_verify runner f (ok _) =
    after_merge f (merge_at_head runner f.repository f.pull_request f.head_sha f.method)

-- What is done by what was seen: whether GitHub reports a merge, and whether the head is the prepared.
abbrev pub judge : Runner → Finalization → Pr → (merged same_head : Bool) → Outcome
judge runner f p true same_head =
    Outcome.settles FinalizationState.merged
      "GitHub already reports the prepared publication as merged" p.url none
judge runner f p false false =
    Outcome.settles FinalizationState.blocked "pull request head changed from prepared %s to %s"
      f.pr_url (some (invalid "pull request head changed"))
judge runner f p false true = after_verify runner f (verify p f.gates)

abbrev pub after_inspect : Runner → Finalization → Fallible Pr → Outcome
after_inspect runner f (err e) = Outcome.keeps e
after_inspect runner f (ok p) = judge runner f p (is_merged_pr p) (p.head_oid == f.head_sha)

unfoldable pub publish : Runner → Finalization → Outcome
publish runner f = after_inspect runner f (inspect runner f.repository f.pull_request)

pub record FinalizationRequest : Type 0 where
  pub execution_id : String
  pub repository : String
  pub pull_request : String
  pub gates : List String
  pub method : String
  pub human_approved : Bool
  pub idempotency_key : String

abbrev differs : FinalizationRequest → List String → Option Finalization → Bool
differs r gates none = false
differs r gates (some f) =
    not (f.execution_id == r.execution_id)
    || not (f.repository == r.repository)
    || not (f.pull_request == r.pull_request)
    || not (f.method == fallback_method r.method)
    || not (bool_eq f.human_approved r.human_approved)
    || not (same_strings f.gates gates)
  where
    bool_eq : Bool → Bool → Bool
    bool_eq true b = b
    bool_eq false b = not b

-- What Finalize checks of a request: the gates, and the publication that is prepared or settled
-- already under the request's key.
unfoldable pub check_request :
    Environment → FinalizationRequest → State → Fallible (List String × Option Finalization)
check_request env r s = do
  refuse (blank r.idempotency_key) (invalid "finalizer idempotency key is required")
  e ← or_fail (lookup r.execution_id s.executions) (invalid "execution does not exist")
  w ← or_fail (lookup e.workflow_id s.workflows) (invalid "finalizer is disabled")
  refuse (not w.finalizer.enabled) (invalid "finalizer is disabled")
  refuse (w.finalizer.require_human && not r.human_approved)
      (invalid "finalizer requires explicit human approval")
  gates ←
      exact_finalizer_checks (if is_empty r.gates then w.finalizer.required_checks else r.gates)
        w.finalizer.required_checks
  let known = lookup (stable_id env "finalization" r.idempotency_key) s.finalizations
  refuse (differs r gates known) idempotency_conflict
  ok (gates, known)
