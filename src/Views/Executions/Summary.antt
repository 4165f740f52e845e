-- ===== src/Views/Executions/Summary.antt =====
-- projectExecutionSummary of internal/supervisor/projection.go.
use durable_agent_handoff.Prelude.{
  String, Bool, true, false, not, ◌&&◌, ◌||◌, Option, none, some, List, [], ◌∷◌, ◌++◌, map, ◌==◌,
  is_space, blank, lookup, values, if◌then◌else◌, keep, join,
}
use durable_agent_handoff.Types.{Time, is_zero, before, after, Attempt, Result, Pause, State}
use Prim.Native.Char.{code}
use durable_agent_handoff.Queries.Ordered.{
  created_before, sort_by, ordered_activities, ordered_attempts,
}

-- strings.Join(strings.Fields(s), " "): whether a field came before, and whether space did since.
unfoldable pub squeeze : (some_field gap : Bool) → String → String
squeeze some_field gap String.[] = ""
squeeze some_field gap (String.◌∷◌ c s) =
    if is_space (code c)
    then squeeze some_field true s
    else join (if some_field && gap then " " else "") (String.◌∷◌ c (squeeze true false s))

pub record Considered : Type 0 where
  pub summary : String
  pub summary_at : Time
  pub updated_at : Time

-- The closure `consider`
abbrev pub consider : Considered → Time → String → Considered
consider c at value = record {
  summary =
      if not (blank value) && (is_zero c.summary_at || not (before at c.summary_at))
      then squeeze false false value
      else c.summary;
  summary_at =
      if not (blank value) && (is_zero c.summary_at || not (before at c.summary_at))
      then at
      else c.summary_at;
  updated_at = if after at c.updated_at then at else c.updated_at;
}

-- What is considered, in order: times with the texts that they bring.
unfoldable pub consider_all : Considered → List (Time × String) → Considered
consider_all c [] = c
consider_all c ((at, value) ∷ rest) = consider_all (consider c at value) rest

unfoldable pub attempt_moments : List Attempt → List (Time × String)
attempt_moments [] = []
attempt_moments (a ∷ rest) =
    (a.created_at, "") ∷ map (λ m. (m.at, m.progress)) a.milestones ++ attempt_moments rest

abbrev pub pause_moments : Option Pause → List (Time × String)
pause_moments none = []
pause_moments (some p) = (p.requested_at, "") ∷ (p.completed_at, "") ∷ []

abbrev pub ordered_results : State → String → List Result
ordered_results s workflow_id =
    sort_by (λ a b. created_before a.created_at a.id b.created_at b.id)
      (keep (λ r. r.workflow_id == workflow_id) (values s.results))

unfoldable pub moments : State → String → List (Time × String)
moments s workflow_id =
    map (λ a. (a.created_at, "")) (ordered_activities s workflow_id)
    ++ (attempt_moments (ordered_attempts s workflow_id)
        ++ (map (λ r. (r.created_at, r.summary)) (ordered_results s workflow_id)
            ++ pause_moments (lookup workflow_id s.pauses)))

unfoldable pub execution_summary : State → String → Time → String × Time
execution_summary s workflow_id updated_at =
    let c =
      consider_all (record { summary = ""; summary_at = 0; updated_at = updated_at })
        (moments s workflow_id) in
    (c.summary, c.updated_at)
