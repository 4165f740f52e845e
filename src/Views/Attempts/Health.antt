-- ===== src/Views/Attempts/Health.antt =====
-- The marks that a view shows of an attempt.
use durable_agent_handoff.Prelude.{◌≡◌, ◌||◌, List, [], ◌∷◌, arith, any}
use durable_agent_handoff.Types.{
  MilestoneKind, is_turn_started, is_provider_unavailable, Milestone, Attempt, State,
}
use durable_agent_handoff.Queries.{has_turn_started, has_provider_unavailable}
use durable_agent_handoff.Views.Attempts.{
  Reading, read_kind, read_milestones, first_reading, project_attempt,
}

-- What a milestone adds to the two marks.
read_kind-marks :
    (k : MilestoneKind) (r : Reading) (m : Milestone)
    → ((read_kind k r m).view.turn_started ≡ (r.view.turn_started || is_turn_started k))
      × ((read_kind k r m).view.provider_unavailable
          ≡ (r.view.provider_unavailable || is_provider_unavailable k))
read_kind-marks MilestoneKind.turn_started r m = (ground arith, ground arith)
read_kind-marks MilestoneKind.provider_unavailable r m = (ground arith, ground arith)
read_kind-marks MilestoneKind.process_spawned r m = (ground arith, ground arith)
read_kind-marks MilestoneKind.meaningful_progress r m = (ground arith, ground arith)
read_kind-marks MilestoneKind.adapter_start_failed r m = (ground arith, ground arith)
read_kind-marks MilestoneKind.exit r m = (ground arith, ground arith)
read_kind-marks MilestoneKind.session_bound r m = (ground arith, ground arith)
read_kind-marks MilestoneKind.effect_started r m = (ground arith, ground arith)
read_kind-marks MilestoneKind.result r m = (ground arith, ground arith)
read_kind-marks (MilestoneKind.unknown_kind k) r m = (ground arith, ground arith)

read_milestones-marks :
    (r : Reading) (ms : List Milestone)
    → ((read_milestones r ms).view.turn_started
        ≡ (r.view.turn_started || any (λ m. is_turn_started m.kind) ms))
      × ((read_milestones r ms).view.provider_unavailable
          ≡ (r.view.provider_unavailable || any (λ m. is_provider_unavailable m.kind) ms))
unfolding read_milestones
read_milestones-marks r [] = (ground arith, ground arith)
read_milestones-marks r (m ∷ ms) =
    let (turn, provider) = read_kind-marks m.kind r m in
    let (turns, providers) = read_milestones-marks (read_kind m.kind r m) ms in
    (ground (arith, turn, turns), ground (arith, provider, providers))

-- The view of an attempt says that its turn started, and that its provider was unavailable, exactly if
-- the queries that count turns say so.
pub project_attempt-marks :
    (s : State) (a : Attempt)
    → ((project_attempt s a).turn_started ≡ has_turn_started a)
      × ((project_attempt s a).provider_unavailable ≡ has_provider_unavailable a)
unfolding project_attempt has_turn_started has_provider_unavailable
project_attempt-marks s a = read_milestones-marks (first_reading a) a.milestones
