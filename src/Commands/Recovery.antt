-- ===== src/Commands/Recovery.antt =====
-- internal/supervisor/recovery.go, with InspectMatch of internal/processidentity/processidentity.go:
-- what becomes of the attempts of a supervisor that stopped. The operating system's answer for a
-- process is an argument.
pub mod Spared
pub mod Divided
use durable_agent_handoff.Prelude.{
  String, Bool, true, false, not, ◌&&◌, ◌||◌, Option, none, some, List, [], ◌∷◌, ◌++◌, ◌==◌, blank,
  str_ltb, lookup, values, eqb, if◌then◌else◌, is_none, is_empty, fenced, live_orphan, invalid,
  Fallible, ok, err, ◌>>=◌, ◌>>◌, refuse, or_fail, map_ok, ℤ, pos, leb_ℤ,
}
use durable_agent_handoff.Types.{
  Time, is_zero, before, MilestoneKind, Activity, ProcessIdentity, process_eq, Milestone, Attempt,
  Lease, State,
}
use durable_agent_handoff.Events.{DomainEvent}
use durable_agent_handoff.Queries.{attempt_has_exit}
use durable_agent_handoff.Queries.Ordered.{sort_by}
use durable_agent_handoff.Reducer.Dag.{sort_strings}
use durable_agent_handoff.Commands.{Decision, settle_messages}
use durable_agent_handoff.Commands.Milestones.{validate_milestone}

pub data Match : Type 0 where
  unknown absent different exact : Match

-- What is found of a process: its start token, and whether it is alive.
abbrev pub Inspector : Type 0
Inspector = ℤ → Fallible (String × Bool)

unfoldable pub inspect_match : Inspector → ℤ → String → Fallible Match
inspect_match inspector pid start_token = do
  refuse (leb_ℤ pid (pos 0) || blank start_token)
      (invalid "exact process identity requires a positive PID and start token")
  found ← inspector pid
  ok (
      if not found.1
      then Match.absent
      else if found.0 == start_token
      then Match.exact
      else Match.different)

unfoldable pub exact_process_match : Inspector → Option ProcessIdentity → Fallible Match
exact_process_match inspector none = err (invalid "durable process identity is incomplete")
exact_process_match inspector (some p) =
    refuse (leb_ℤ p.pid (pos 0) || blank p.start_token)
      (invalid "durable process identity is incomplete")
    >> inspect_match inspector p.pid p.start_token

abbrev pub same_process_identity : Option ProcessIdentity → Option ProcessIdentity → Bool
same_process_identity none none = true
same_process_identity (some p) (some q) = process_eq p q
same_process_identity _ _ = false

pub record StartupRecovery : Type 0 where
  pub attempt_id : String
  pub lease_id : String
  pub process : Option ProcessIdentity

-- Whether an attempt is to be terminalized: its process is known to be gone, or it has none. An exact
-- live process is spared.
unfoldable pub is_gone : Inspector → Option ProcessIdentity → Fallible Bool
is_gone inspector none = ok true
is_gone inspector (some p) = exact_process_match inspector (some p) >>= λ found. elim found [
  | Match.unknown ↦ err (
      invalid "inspect orphaned Attempt %s without releasing its lease: identity status is unknown")
  | Match.exact ↦ ok false
  | _ ↦ ok true
]

-- One turn of the loop of ReconcileStartup: the recovery of an attempt, or none.
abbrev pub recovery_of : Inspector → Attempt → Fallible (List StartupRecovery)
recovery_of inspector a =
    if attempt_has_exit a
    then ok []
    else map_ok
        (λ gone.
          if gone
          then record { attempt_id = a.id; lease_id = a.lease_id; process = a.process } ∷ []
          else [])
        (is_gone inspector a.process)

-- The loop of ReconcileStartup over the attempts.
unfoldable pub inherited : Inspector → List Attempt → Fallible (List StartupRecovery)
inherited inspector [] = ok []
inherited inspector (a ∷ rest) = do
  own ← recovery_of inspector a
  others ← inherited inspector rest
  ok (own ++ others)

-- ReconcileStartup up to Execute: the recoveries of its command, in order, where there are any.
unfoldable pub reconcile_startup : Inspector → State → Fallible (Option (List StartupRecovery))
reconcile_startup inspector s = do
  recoveries ← inherited inspector (values s.attempts)
  ok (
      if is_empty recoveries
      then none
      else some (sort_by (λ r t. str_ltb r.attempt_id t.attempt_id) recoveries))

abbrev pub live_one : Inspector → Attempt → Fallible (List String)
live_one inspector a =
    if attempt_has_exit a || is_none a.process
    then ok []
    else map_ok (λ gone. if gone then [] else a.id ∷ []) (is_gone inspector a.process)

-- The loop of LiveAttemptIDs over the attempts.
unfoldable pub live_among : Inspector → List Attempt → Fallible (List String)
live_among inspector [] = ok []
live_among inspector (a ∷ rest) = do
  own ← live_one inspector a
  others ← live_among inspector rest
  ok (own ++ others)

unfoldable pub live_attempt_ids : Inspector → State → Fallible (List String)
live_attempt_ids inspector s = map_ok sort_strings (live_among inspector (values s.attempts))

abbrev never_spawned : Time → Milestone
never_spawned now = record {
  kind = MilestoneKind.adapter_start_failed;
  at = now;
  session = none;
  process = none;
  effect = "";
  progress = "";
  result = none;
  failure = "prepared Attempt was never spawned before Supervisor restart";
  exit = none;
  source_type = "supervisor.recovery";
}

abbrev pub orphan_exit : Time → Milestone
orphan_exit now = record {
  kind = MilestoneKind.exit;
  at = now;
  session = none;
  process = none;
  effect = "";
  progress = "";
  result = none;
  failure = "";
  exit = some (record {
    code = pos 255;
    error = "orphaned Attempt was terminalized during Supervisor restart";
  });
  source_type = "supervisor.recovery";
}

-- The fence of a recovery: attempt, lease and activity belong together, and the attempt has no exit.
abbrev is_fenced_out : Attempt → Lease → Activity → Bool
is_fenced_out a l activity =
    not (a.lease_id == l.id)
    || not (l.attempt_id == a.id)
    || not (is_zero l.released_at)
    || not (eqb a.activity_generation activity.generation)
    || attempt_has_exit a

-- The attempt of a recovery, its lease and its activity, if they are what the recovery says.
unfoldable pub check_recovery : Inspector → State → StartupRecovery → Fallible (Attempt × Activity)
check_recovery inspector s r = do
  a ← or_fail (lookup r.attempt_id s.attempts) fenced
  l ← or_fail (lookup r.lease_id s.leases) fenced
  activity ← or_fail (lookup a.activity_id s.activities) fenced
  refuse (is_fenced_out a l activity) fenced
  refuse (not (same_process_identity a.process r.process)) fenced
  gone ← is_gone inspector a.process
  refuse (not gone) live_orphan
  ok (a, activity)

abbrev is_unspawned : Attempt → Bool
is_unspawned a = is_none a.process && is_empty a.milestones

-- The milestone of an attempt that was never spawned, and the attempt with it.
unfoldable pub fail_unspawned :
    State → Time → Attempt → Activity → Fallible (List DomainEvent × Attempt)
fail_unspawned s now a activity =
    if is_unspawned a
    then (validate_milestone s a activity (never_spawned now)
        >> ok (
          DomainEvent.milestone_recorded a.id (never_spawned now) ∷ [],
          record a { milestones = a.milestones ++ never_spawned now ∷ [] },
        ))
    else ok ([], a)

-- One turn of the loop over the recoveries
unfoldable pub recover : Inspector → State → Time → StartupRecovery → Fallible (List DomainEvent)
recover inspector s now r = do
  found ← check_recovery inspector s r
  failed ← fail_unspawned s now found.0 found.1
  validate_milestone s failed.1 found.1 (orphan_exit now)
  ok (
      failed.0
      ++ (DomainEvent.milestone_recorded r.attempt_id (orphan_exit now)
          ∷ (settle_messages s found.1.id failed.1.id false now
              ++ DomainEvent.lease_released r.lease_id now ∷ [])))

unfoldable pub recover_all :
    Inspector → State → Time → List StartupRecovery → Fallible (List DomainEvent)
recover_all inspector s now [] = ok []
recover_all inspector s now (r ∷ rs) = do
  events ← recover inspector s now r
  others ← recover_all inspector s now rs
  ok (events ++ others)

-- reconcileStartupCommand.decide
unfoldable pub reconcile : Inspector → List StartupRecovery → State → Time → Decision
reconcile inspector recoveries s now = do
  refuse (is_empty recoveries) (invalid "startup reconciliation requires inherited Attempts")
  events ← recover_all inspector s now recoveries
  ok (events, "startup-reconcile")
