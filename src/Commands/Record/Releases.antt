-- ===== src/Commands/Record/Releases.antt =====
-- When the writer lease ends, of recordMilestoneCommand: at the exit of its attempt, and only there.
use durable_agent_handoff.Prelude.{
  String, ◌≡◌, refl, sym, ap, ◌∙◌, subst, inl, inr, Bool, true, false, some, List, [], ◌∷◌, ◌++◌,
  map, arith, eq_refl, lookup, lookup-put, if◌then◌else◌, Option-cases, any, keep, any-append, ok,
  Fallible-cases,
}
use durable_agent_handoff.Types.{Time, is_exit, Activity, Milestone, Attempt, Message, Lease, State}
use mathlib.Core.List.{append_assoc}
use durable_agent_handoff.Environment.{Environment}
use durable_agent_handoff.Events.{DomainEvent}
use durable_agent_handoff.Queries.Ordered.{ordered_messages}
use durable_agent_handoff.Commands.{settle_messages, is_carried_by}
use durable_agent_handoff.Commands.Record.{
  RecordMilestoneInput, is_fenced, result_events, session_events, terminal_events, with_time,
  record_milestone,
}
use durable_agent_handoff.Reducer.Held.{writes_leases, leases-apply_events, apply_events-append}
use durable_agent_handoff.Reducer.{apply_domain_event, apply_events}
use durable_agent_handoff.Reducer.Runs.{apply_lease_released}

any-settled :
    (delivered : Bool) (at : Time) (ms : List Message)
    → any writes_leases (map (λ m. DomainEvent.message_settled m.id delivered at) ms) ≡ false
any-settled delivered at [] = refl
any-settled delivered at (m ∷ ms) = any-settled delivered at ms

any-settle_messages :
    (s : State) (activity_id attempt_id : String) (delivered : Bool) (at : Time)
    → any writes_leases (settle_messages s activity_id attempt_id delivered at) ≡ false
unfolding settle_messages
any-settle_messages s activity_id attempt_id delivered at =
    any-settled delivered at (keep (is_carried_by activity_id attempt_id) (ordered_messages s))

any-result_events :
    (env : Environment) (s : State) (a : Attempt) (b : Activity) (m : Milestone) (now : Time)
    (es : List DomainEvent)
    → result_events env s a b m now ≡ ok es
    → any writes_leases es ≡ false
unfolding result_events
any-result_events env s a b m now es h = ground (arith, any-settle_messages s b.id a.id true now)

any-session_events :
    (env : Environment) (s : State) (a : Attempt) (b : Activity) (m : Milestone) (now : Time)
    → any writes_leases (session_events env s a b m now) ≡ false
unfolding session_events
any-session_events env s a b m now = ground arith

any-terminal_events :
    (s : State) (a : Attempt) (b : Activity) (l : Lease) (m : Milestone) (now : Time)
    → (xs : List DomainEvent) × (terminal_events s a b l m now
        ≡ xs ++ (if is_exit m.kind then DomainEvent.lease_released l.id now ∷ [] else []))
      × (any writes_leases xs ≡ false)
unfolding terminal_events
any-terminal_events s a b l m now =
    (_, refl, ground (arith, any-settle_messages s b.id a.id false now))

-- The parts of a milestone that is recorded, and what stands before its release.
pub record IsRecorded (env : Environment) (i : RecordMilestoneInput) (s : State) (now : Time)
    (d : List DomainEvent × String) : Type 0 where
  pub attempt : Attempt
  pub activity : Activity
  pub lease : Lease
  pub attempt_found : lookup i.attempt_id s.attempts ≡ some attempt
  pub activity_found : lookup i.activity_id s.activities ≡ some activity
  pub lease_found : lookup i.lease_id s.leases ≡ some lease
  pub unfenced : is_fenced i attempt activity lease ≡ false
  pub entailed : List DomainEvent
  pub quiet : any writes_leases entailed ≡ false
  pub recorded :
      d.0
      ≡ entailed
        ++ (if is_exit i.milestone.kind then DomainEvent.lease_released lease.id now ∷ [] else [])

kind-with_time : (m : Milestone) (now : Time) → (with_time m now).kind ≡ m.kind
kind-with_time m now = ground arith

regroup :
    {A : Type 0} (xs ys zs us vs : List A)
    → us ≡ vs
    → (xs ++ (ys ++ (zs ++ us))) ≡ ((xs ++ (ys ++ zs)) ++ vs)
regroup xs ys zs us vs h = rw (h, append_assoc xs (ys ++ zs) vs, append_assoc ys zs vs) refl

split_events :
    (env : Environment) (i : RecordMilestoneInput) (s : State) (now : Time) (a : Attempt)
    (b : Activity) (l : Lease) (results : List DomainEvent)
    → result_events env s a b (with_time i.milestone now) now ≡ ok results
    → (xs : List DomainEvent) × (any writes_leases xs ≡ false)
      × ((DomainEvent.milestone_recorded a.id (with_time i.milestone now)
            ∷ (results
                ++ (session_events env s a b (with_time i.milestone now) now
                    ++ terminal_events s a b l (with_time i.milestone now) now)))
          ≡ xs
            ++ (if is_exit i.milestone.kind then DomainEvent.lease_released l.id now ∷ [] else []))
split_events env i s now a b l results h =
    let m = with_time i.milestone now in
    let (ends, eq, quiet) = any-terminal_events s a b l m now in
    let sessions = session_events env s a b m now in
    let first = DomainEvent.milestone_recorded a.id m in
    let release' =
      (if is_exit i.milestone.kind then DomainEvent.lease_released l.id now ∷ [] else []) in
    let release = (if is_exit m.kind then DomainEvent.lease_released l.id now ∷ [] else []) in
    (
      first ∷ (results ++ (sessions ++ ends)),
      ground (
        arith,
        any-append writes_leases results (sessions ++ ends),
        any-append writes_leases sessions ends,
        any-result_events env s a b m now results h,
        any-session_events env s a b m now,
        quiet,
      ),
      ap (λ xs. first ∷ xs)
          (rw eq (
            regroup results sessions ends release release' (
              ap (λ k. if is_exit k then DomainEvent.lease_released l.id now ∷ [] else [])
                (kind-with_time i.milestone now)))),
    )

open_record :
    (env : Environment) (i : RecordMilestoneInput) (s : State) (now : Time)
    (d : List DomainEvent × String)
    → record_milestone env i s now ≡ ok d
    → IsRecorded env i s now d
unfolding record_milestone
open_record env i s now d h = elim (Option-cases (lookup i.attempt_id s.attempts)) [
  | inl z ↦ absurd (ground arith)
  | inr (a, ha) ↦ elim (Option-cases (lookup i.activity_id s.activities)) [
    | inl z ↦ absurd (ground arith)
    | inr (b, hb) ↦ elim (Option-cases (lookup i.lease_id s.leases)) [
      | inl z ↦ absurd (ground arith)
      | inr (l, hl) ↦
          elim (Fallible-cases (result_events env s a b (with_time i.milestone now) now)) [
            | inr (e, z) ↦ absurd (ground arith)
            | inl (results, hr) ↦
                let (xs, quiet, split) = split_events env i s now a b l results hr in
                record {
                  attempt = a;
                  activity = b;
                  lease = l;
                  attempt_found = ha;
                  activity_found = hb;
                  lease_found = hl;
                  unfenced = ground arith;
                  entailed = xs;
                  quiet = quiet;
                  recorded = ground (arith, split);
                }
          ]
    ]
  ]
]

released-lookup :
    (s t : State) (l : Lease) (now : Time)
    → apply_events s (DomainEvent.lease_released l.id now ∷ []) ≡ ok t
    → lookup l.id s.leases ≡ some l
    → lookup l.id t.leases ≡ some (record l { released_at = now })
unfolding apply_events apply_domain_event apply_lease_released
released-lookup s t l now h f =
    ground (arith, lookup-put l.id l.id (record l { released_at = now }) s.leases, eq_refl l.id)

released_events :
    (id wanted : String) (now : Time) (u t : State) (b : Bool)
    → b ≡ true
    → id ≡ wanted
    → apply_events u (if b then DomainEvent.lease_released id now ∷ [] else []) ≡ ok t
    → apply_events u (DomainEvent.lease_released wanted now ∷ []) ≡ ok t
released_events id wanted now u t b x e = rw (x, e) (λ y. y)

no_release :
    (id : String) (now : Time) (u t : State) (b : Bool)
    → b ≡ false
    → apply_events u (if b then DomainEvent.lease_released id now ∷ [] else []) ≡ ok t
    → t.leases ≡ u.leases
unfolding apply_events
no_release id now u t b x h = ground arith

-- A milestone that is recorded and reduced, under a lease that the state has by its own identity,
-- releases that lease if it is the exit, at the time of the command; any other milestone leaves the
-- leases as they were.
pub record_milestone-releases :
    (env : Environment) (i : RecordMilestoneInput) (s t : State) (now : Time)
    (d : List DomainEvent × String) (l : Lease)
    → lookup i.lease_id s.leases ≡ some l
    → l.id ≡ i.lease_id
    → record_milestone env i s now ≡ ok d
    → apply_events s d.0 ≡ ok t
    → (l.released_at ≡ 0)
      × (is_exit i.milestone.kind ≡ true
          → lookup i.lease_id t.leases ≡ some (record l { released_at = now }))
      × (is_exit i.milestone.kind ≡ false → t.leases ≡ s.leases)
record_milestone-releases env i s t now d l hl same h a =
    let r = open_record env i s now d h in
    let lease : r.lease ≡ l = ground (arith, r.lease_found) in
    let (u, hu, ht) =
      apply_events-append s t r.entailed
        (if is_exit i.milestone.kind then DomainEvent.lease_released r.lease.id now ∷ [] else [])
        (subst (λ es. apply_events s es ≡ ok t) r.recorded a) in
    let kept = leases-apply_events s u r.entailed r.quiet hu in
    (
      unfold is_fenced in ground (arith, r.unfenced, lease),
      (λ x.
          subst (λ k. lookup k t.leases ≡ some (record l { released_at = now })) same
            (released-lookup u t l now
              (released_events r.lease.id l.id now u t (is_exit i.milestone.kind) x
                (ap (λ y. y.id) lease) ht)
              (subst (λ ls. lookup l.id ls ≡ some l) (sym kept)
                (subst (λ k. lookup k s.leases ≡ some l) (sym same) hl)))),
      (λ x. no_release r.lease.id now u t (is_exit i.milestone.kind) x ht ∙ kept),
    )
