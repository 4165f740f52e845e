-- ===== src/Commands/Recovery/Spared.antt =====
-- A reconciliation terminalizes no live process: each attempt is either live or inherited, and what is
-- recovered was gone.
use durable_agent_handoff.Prelude.{
  String, ◌≡◌, refl, sym, ap, ◌∙◌, subst, ◌⊎◌, inl, inr, true, false, not, Option, none, some, List,
  [], ◌∷◌, ◌++◌, arith, eq_iff, lookup, is_empty, All, Error, fenced, live_orphan, invalid, ok, err,
  or_fail, >>=-eq-ok, refuse-then, >>-eq-ok,
}
use durable_agent_handoff.Types.{
  Time, is_zero, before, Activity, ProcessIdentity, Attempt, Lease, State,
}
use mathlib.Core.List.{append_assoc}
use durable_agent_handoff.Events.{DomainEvent}
use durable_agent_handoff.Queries.{attempt_has_exit}
use durable_agent_handoff.Commands.{settle_messages}
use durable_agent_handoff.Commands.Milestones.{validate_milestone}
use durable_agent_handoff.Commands.Recovery.{
  Match, Inspector, exact_process_match, same_process_identity, StartupRecovery, is_gone,
  orphan_exit, is_fenced_out, check_recovery, fail_unspawned, recover, recover_all, reconcile,
}

-- A process that is known to be gone: there is none, or another one is in its place, or nothing.
abbrev pub IsGone : Inspector → Option ProcessIdentity → Type 0
IsGone inspector process =
    (process ≡ none)
    ⊎ (exact_process_match inspector process ≡ ok Match.absent)
    ⊎ (exact_process_match inspector process ≡ ok Match.different)

is_gone-IsGone :
    (inspector : Inspector) (process : Option ProcessIdentity)
    → is_gone inspector process ≡ ok true
    → IsGone inspector process
unfolding is_gone
is_gone-IsGone inspector none gone = inl refl
is_gone-IsGone inspector (some p) gone =
    let (found, matched, rest) = >>=-eq-ok (exact_process_match inspector (some p)) _ gone in
    go found matched rest
  where
    go :
        (found : Match)
        → exact_process_match inspector (some p) ≡ ok found
        → (elim found [
          | Match.unknown ↦ err (
              invalid
                "inspect orphaned Attempt %s without releasing its lease: identity status is unknown")
          | Match.exact ↦ ok false
          | _ ↦ ok true
        ])
          ≡ ok true
        → IsGone inspector (some p)
    go Match.unknown matched rest = absurd (ground (arith, rest))
    go Match.absent matched rest = inr (inl matched)
    go Match.different matched rest = inr (inr matched)
    go Match.exact matched rest = absurd (ground (arith, rest))

-- An attempt with its lease, which is held.
abbrev pub IsPair : Attempt → Lease → Type 0
IsPair a l = (a.lease_id ≡ l.id) × (l.attempt_id ≡ a.id) × (is_zero l.released_at ≡ true)

-- The attempt that a recovery ends with these events.
pub record IsRecovered (inspector : Inspector) (s : State) (now : Time) (r : StartupRecovery)
    (events : List DomainEvent) : Type 0 where
  pub attempt : Attempt
  pub found : lookup r.attempt_id s.attempts ≡ some attempt
  pub unfinished : attempt_has_exit attempt ≡ false
  pub lease : Lease
  pub lease_found : lookup r.lease_id s.leases ≡ some lease
  pub own_lease : IsPair attempt lease
  pub same : same_process_identity attempt.process r.process ≡ true
  pub gone : IsGone inspector attempt.process
  pub earlier : List DomainEvent
  pub settled : List DomainEvent
  pub later : List DomainEvent
  pub ended :
      events
      ≡ earlier
        ++ (DomainEvent.milestone_recorded r.attempt_id (orphan_exit now)
            ∷ (settled ++ DomainEvent.lease_released r.lease_id now ∷ later))

or_fail-found : {A : Type 0} (o : Option A) (e : Error) {a : A} → or_fail o e ≡ ok a → o ≡ some a
or_fail-found none e h = cc
or_fail-found (some b) e h = cc

not_fenced-IsPair :
    (a : Attempt) (l : Lease) (activity : Activity)
    → is_fenced_out a l activity ≡ false
    → (attempt_has_exit a ≡ false) × IsPair a l
not_fenced-IsPair a l activity h = (
  ground arith,
  (
    (eq_iff a.lease_id l.id).0 (ground arith),
    (eq_iff l.attempt_id a.id).0 (ground arith),
    ground arith,
  ),
)

-- What the checks of a recovery leave of its attempt.
abbrev IsChecked : Inspector → State → StartupRecovery → Attempt → Type 0
IsChecked inspector s r a =
    (lookup r.attempt_id s.attempts ≡ some a)
    × (attempt_has_exit a ≡ false)
    × (same_process_identity a.process r.process ≡ true)
    × (is_gone inspector a.process ≡ ok true)
    × ((l : Lease) × (lookup r.lease_id s.leases ≡ some l) × IsPair a l)

check_recovery-IsChecked :
    (inspector : Inspector) (s : State) (r : StartupRecovery) (a : Attempt) (activity : Activity)
    → check_recovery inspector s r ≡ ok (a, activity)
    → IsChecked inspector s r a
unfolding check_recovery
check_recovery-IsChecked inspector s r a activity passed =
    let (b, found, r₀) = >>=-eq-ok (or_fail (lookup r.attempt_id s.attempts) fenced) _ passed in
    let (l, leased, r₁) = >>=-eq-ok (or_fail (lookup r.lease_id s.leases) fenced) _ r₀ in
    let (c, _, r₂) = >>=-eq-ok (or_fail (lookup b.activity_id s.activities) fenced) _ r₁ in
    let (inside, r₃) = refuse-then (is_fenced_out b l c) fenced _ r₂ in
    let (alike, r₄) = refuse-then (not (same_process_identity b.process r.process)) fenced _ r₃ in
    let (gone, looked, r₅) = >>=-eq-ok (is_gone inspector b.process) _ r₄ in
    let (ended, r₆) = refuse-then (not gone) live_orphan _ r₅ in
    let same : b ≡ a = cc in
    let over : gone ≡ true = ground arith in
    subst (IsChecked inspector s r) same (
      or_fail-found (lookup r.attempt_id s.attempts) fenced found,
      (not_fenced-IsPair b l c inside).0,
      ground (arith, alike),
      looked ∙ ap ok over,
      (
        l,
        or_fail-found (lookup r.lease_id s.leases) fenced leased,
        (not_fenced-IsPair b l c inside).1,
      ),
    )

recover-IsRecovered :
    (inspector : Inspector) (s : State) (now : Time) (r : StartupRecovery)
    (events : List DomainEvent)
    → recover inspector s now r ≡ ok events
    → IsRecovered inspector s now r events
unfolding recover
recover-IsRecovered inspector s now r events returned =
    let ((a, activity), checked, r₀) = >>=-eq-ok (check_recovery inspector s r) _ returned in
    let (failed, _, r₁) = >>=-eq-ok (fail_unspawned s now a activity) _ r₀ in
    let settled = settle_messages s activity.id failed.1.id false now in
    let r₂ =
      >>-eq-ok (validate_milestone s failed.1 activity (orphan_exit now))
        (ok (
          failed.0
          ++ (DomainEvent.milestone_recorded r.attempt_id (orphan_exit now)
              ∷ (settled ++ DomainEvent.lease_released r.lease_id now ∷ []))))
        r₁ in
    let (found, unfinished, same, gone, (lease, lease_found, pair)) =
      check_recovery-IsChecked inspector s r a activity checked in
    record {
      attempt = a;
      found = found;
      unfinished = unfinished;
      lease = lease;
      lease_found = lease_found;
      own_lease = pair;
      same = same;
      gone = is_gone-IsGone inspector a.process gone;
      earlier = failed.0;
      settled = settled;
      later = [];
      ended = cc;
    }

-- Events of other recoveries before and after
IsRecovered-before :
    (inspector : Inspector) (s : State) (now : Time) (r : StartupRecovery)
    (events others : List DomainEvent)
    → IsRecovered inspector s now r events
    → IsRecovered inspector s now r (others ++ events)
IsRecovered-before inspector s now r events others x = record {
  attempt = x.attempt;
  found = x.found;
  unfinished = x.unfinished;
  lease = x.lease;
  lease_found = x.lease_found;
  own_lease = x.own_lease;
  same = x.same;
  gone = x.gone;
  earlier = others ++ x.earlier;
  settled = x.settled;
  later = x.later;
  ended = rw x.ended (
      sym (
        append_assoc others x.earlier (
          DomainEvent.milestone_recorded r.attempt_id (orphan_exit now)
          ∷ (x.settled ++ DomainEvent.lease_released r.lease_id now ∷ x.later))));
}

IsRecovered-after :
    (inspector : Inspector) (s : State) (now : Time) (r : StartupRecovery)
    (events others : List DomainEvent)
    → IsRecovered inspector s now r events
    → IsRecovered inspector s now r (events ++ others)
IsRecovered-after inspector s now r events others x = record {
  attempt = x.attempt;
  found = x.found;
  unfinished = x.unfinished;
  lease = x.lease;
  lease_found = x.lease_found;
  own_lease = x.own_lease;
  same = x.same;
  gone = x.gone;
  earlier = x.earlier;
  settled = x.settled;
  later = x.later ++ others;
  ended = rw (x.ended, append_assoc x.earlier _ others, append_assoc x.settled _ others) refl;
}

recover_all-IsRecovered :
    (inspector : Inspector) (s : State) (now : Time) (rs : List StartupRecovery)
    (before events : List DomainEvent)
    → recover_all inspector s now rs ≡ ok events
    → All (λ r. IsRecovered inspector s now r (before ++ events)) rs
unfolding recover_all
recover_all-IsRecovered inspector s now [] before events returned = tt
recover_all-IsRecovered inspector s now (r ∷ rs) before events returned =
    let (own, one, r₀) = >>=-eq-ok (recover inspector s now r) _ returned in
    let (others, rest, r₁) = >>=-eq-ok (recover_all inspector s now rs) _ r₀ in
    let whole : own ++ others ≡ events = cc in
    let mine = recover-IsRecovered inspector s now r own one in
    (
      subst (λ all. IsRecovered inspector s now r (before ++ all)) whole
          (IsRecovered-before inspector s now r (own ++ others) before
            (IsRecovered-after inspector s now r own others mine)),
      subst (λ all. All (λ t. IsRecovered inspector s now t all) rs)
          (append_assoc before own others ∙ ap (λ all. before ++ all) whole)
          (recover_all-IsRecovered inspector s now rs (before ++ own) others rest),
    )

-- A reconciliation that is decided ends each attempt that it recovers: the attempt had no exit, its
-- process is the one that was seen and is none, absent or replaced by another; its exit is recorded,
-- and after that its lease, which names it and was held, is released.
pub reconcile-IsRecovered :
    (inspector : Inspector) (recoveries : List StartupRecovery) (s : State) (now : Time)
    (events : List DomainEvent) (id : String)
    → reconcile inspector recoveries s now ≡ ok (events, id)
    → All (λ r. IsRecovered inspector s now r events) recoveries
unfolding reconcile
reconcile-IsRecovered inspector recoveries s now events id decided =
    let (_, r₀) =
      refuse-then (is_empty recoveries)
        (invalid "startup reconciliation requires inherited Attempts") _ decided in
    let (found, all, r₁) = >>=-eq-ok (recover_all inspector s now recoveries) _ r₀ in
    let same : found ≡ events = cc in
    subst (λ e. All (λ r. IsRecovered inspector s now r e) recoveries) same
      (recover_all-IsRecovered inspector s now recoveries [] found all)
