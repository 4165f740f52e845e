-- ===== src/Commands/Milestones/Machine.antt =====
-- The life of an attempt as a state machine over its milestones, and what the flags of
-- validateMilestone say of a run of it.
use durable_agent_handoff.Prelude.{
  ◌≤◌, ◌≡◌, inl, inr, Bool, true, false, ◌||◌, Option, none, some, List, [], ◌∷◌, ◌++◌, arith,
  Option-cases,
}
use durable_agent_handoff.Types.{Time, MilestoneKind, Milestone}
use durable_agent_handoff.Commands.Milestones.{turn_seen, result_seen, exit_seen, failure_seen}

-- Times that do not fall, from a first one.
abbrev pub IsChronological : Time → List Milestone → Type 0
IsChronological t [] = Unit {0}
IsChronological t (m ∷ ms) = (t ≤ m.at) × IsChronological m.at ms

-- Before the turn, in it, behind its result, behind a failure to start, and behind the exit.
pub data Phase : Type 0 where
  starting turning reported failed exited : Phase

unfoldable pub advance : Phase → MilestoneKind → Option Phase
advance Phase.starting MilestoneKind.process_spawned = some Phase.starting
advance Phase.starting MilestoneKind.session_bound = some Phase.starting
advance Phase.starting MilestoneKind.turn_started = some Phase.turning
advance Phase.starting MilestoneKind.provider_unavailable = some Phase.failed
advance Phase.starting MilestoneKind.adapter_start_failed = some Phase.failed
advance Phase.starting MilestoneKind.exit = some Phase.exited
advance Phase.turning MilestoneKind.session_bound = some Phase.turning
advance Phase.turning MilestoneKind.effect_started = some Phase.turning
advance Phase.turning MilestoneKind.meaningful_progress = some Phase.turning
advance Phase.turning MilestoneKind.result = some Phase.reported
advance Phase.turning MilestoneKind.exit = some Phase.exited
advance Phase.reported MilestoneKind.exit = some Phase.exited
advance Phase.failed MilestoneKind.exit = some Phase.exited
advance _ _ = none

unfoldable pub run : Phase → List Milestone → Option Phase
run p [] = some p
run p (m ∷ ms) = elim (advance p m.kind) [ none ↦ none | some q ↦ run q ms ]

abbrev pub in_turn : Phase → Bool
in_turn Phase.turning = true
in_turn Phase.reported = true
in_turn _ = false

abbrev pub has_reported : Phase → Bool
has_reported Phase.reported = true
has_reported _ = false

abbrev pub has_failed : Phase → Bool
has_failed Phase.failed = true
has_failed _ = false

abbrev pub has_exited : Phase → Bool
has_exited Phase.exited = true
has_exited _ = false

-- What the flags of validateMilestone say of a run.
pub record Flags (p q : Phase) (ms : List Milestone) : Type 0 where
  pub exit : has_exited q ≡ (has_exited p || exit_seen ms)
  pub turn : has_exited q ≡ false → in_turn q ≡ (in_turn p || turn_seen ms)
  pub report : has_exited q ≡ false → has_reported q ≡ (has_reported p || result_seen ms)
  pub failure : has_exited q ≡ false → has_failed q ≡ (has_failed p || failure_seen ms)

advance-Flags : (p q : Phase) (m : Milestone) → advance p m.kind ≡ some q → Flags p q (m ∷ [])
unfolding advance
advance-Flags p q m h = record {
  exit = ground arith;
  turn = λ n. ground arith;
  report = λ n. ground arith;
  failure = λ n. ground arith;
}

Flags-trans :
    (p q r : Phase) (m : Milestone) (ms : List Milestone)
    → Flags p q (m ∷ [])
    → Flags q r ms
    → Flags p r (m ∷ ms)
Flags-trans p q r m ms f g = record {
  exit = ground (arith, f.exit, g.exit);
  turn = λ n. let k = still n in ground (arith, f.turn k, g.turn n);
  report = λ n. let k = still n in ground (arith, f.report k, g.report n);
  failure = λ n. let k = still n in ground (arith, f.failure k, g.failure n);
}
  where
    still : has_exited r ≡ false → has_exited q ≡ false
    still n = ground (arith, g.exit)

pub run-Flags : (p q : Phase) (ms : List Milestone) → run p ms ≡ some q → Flags p q ms
unfolding run
run-Flags p q [] h = record {
  exit = ground arith;
  turn = λ n. ground arith;
  report = λ n. ground arith;
  failure = λ n. ground arith;
}
run-Flags p q (m ∷ ms) h = elim (Option-cases (advance p m.kind)) [
  | inl e ↦ absurd (ground arith)
  | inr (r, e) ↦ Flags-trans p r q m ms (advance-Flags p r m e) (run-Flags r q ms (ground arith))
]

pub run-append :
    (p q r : Phase) (ms : List Milestone) (m : Milestone)
    → run p ms ≡ some q
    → advance q m.kind ≡ some r
    → run p (ms ++ m ∷ []) ≡ some r
unfolding run
run-append p q r [] m h e = ground arith
run-append p q r (x ∷ ms) m h e = elim (Option-cases (advance p x.kind)) [
  | inl z ↦ absurd (ground arith)
  | inr (u, z) ↦ rw (z, run) (run-append u q r ms m (ground arith) e)
]
