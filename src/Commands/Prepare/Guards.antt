-- ===== src/Commands/Prepare/Guards.antt =====
-- What a prepared launch found, of prepareAttemptCommand: the guards that the command passed, and
-- the one live attempt and the one writer that it leaves.
use durable_agent_handoff.Prelude.{
  ℕ, suc, ◌+◌, ◌≤◌, ◌<◌, String, ◌≡◌, refl, sym, subst, ◌⊎◌, inl, inr, true, false, ◌&&◌, none,
  some, List, [], ◌∷◌, map, arith, ◌==◌, eq_refl, lookup, put, values, leb, if◌then◌else◌,
  Option-cases, is_some, any, count, keep, any-count, count-put, All, Error, ok, err, >>=-eq-ok,
  Fallible-cases, pos, leb_ℤ,
}
use durable_agent_handoff.Types.{
  Time, is_queued, Node, Workflow, Activity, Attempt, Message, Lease, State,
}
use durable_agent_handoff.Environment.{Environment, stable_id}
use durable_agent_handoff.Events.{DomainEvent}
use durable_agent_handoff.Queries.{
  launches_of, raise_ordinal, is_for, attempt_has_exit, next_delivery_generation,
}
use durable_agent_handoff.Queries.Ordered.{ordered_messages}
use durable_agent_handoff.Reducer.{apply_domain_event, apply_events}
use durable_agent_handoff.Reducer.Runs.{apply_attempt_prepared}
use durable_agent_handoff.Reducer.Effects.{apply_message_dispatched}
use durable_agent_handoff.Commands.Prepare.{
  PrepareAttemptInput, is_scheduled_after, check_activity, check_authority, is_live_for,
  holds_worktree, check_room, new_attempt, new_lease, dispatches, prepare_attempt,
}

-- The ordinal of a new attempt passes the ordinal of every attempt of its activity.
raise_ordinal-above :
    (id : String) (n : ℕ) (xs : List Attempt)
    → (n ≤ raise_ordinal id n xs)
      × All (λ a. is_for id a ≡ true → a.ordinal < raise_ordinal id n xs) xs
unfolding raise_ordinal
raise_ordinal-above id n [] = (omega arith, tt)
raise_ordinal-above id n (a ∷ xs) =
    let next = (if is_for id a && leb n a.ordinal then a.ordinal + 1 else n) in
    let (above, rest) = raise_ordinal-above id next xs in
    (ground (arith, above), ((λ same. ground (arith, above)), rest))

dispatches-keep :
    (s t : State) (ms : List Message) (id : String) (g : ℕ)
    → apply_events s (map (λ m. DomainEvent.message_dispatched m.id id g) ms) ≡ ok t
    → (t.attempts ≡ s.attempts) × (t.leases ≡ s.leases)
unfolding apply_events apply_domain_event apply_message_dispatched
dispatches-keep s t [] id g h = ground arith
dispatches-keep s t (m ∷ ms) id g h =
    let (u, hu, ht) =
      >>=-eq-ok (apply_message_dispatched s m.id id g)
        (λ u. apply_events u (map (λ m. DomainEvent.message_dispatched m.id id g) ms)) h in
    let (a, l) = dispatches-keep u t ms id g ht in ground (arith, a, l, hu)

-- The guards that a launch passed.
pub record IsGuarded (env : Environment) (i : PrepareAttemptInput) (s : State) (now : Time)
    (d : List DomainEvent × String) : Type 0 where
  pub activity : Activity
  pub workflow : Workflow
  pub node : Node
  pub activity_found : lookup i.activity_id s.activities ≡ some activity
  pub workflow_found : lookup activity.workflow_id s.workflows ≡ some workflow
  pub node_found : lookup activity.node_id workflow.nodes ≡ some node
  pub unpaused : lookup activity.workflow_id s.pauses ≡ none
  pub due : is_scheduled_after activity.not_before now ≡ false
  pub checked : check_activity i s activity ≡ ok tt
  pub authorized : check_authority i s activity workflow (some node) ≡ ok node
  pub room : check_room s activity workflow node ≡ ok tt
  pub decided :
      (
        DomainEvent.attempt_prepared
              (some (new_attempt env i s activity node now))
              (some (new_lease env i activity node now))
            ∷ dispatches env i s activity,
        stable_id env "attempt" i.idempotency_key,
      )
      ≡ d

check_authority-cases :
    (i : PrepareAttemptInput) (s : State) (b : Activity) (w : Workflow) (n : Node)
    → (check_authority i s b w (some n) ≡ ok n)
      ⊎ ((e : Error) × (check_authority i s b w (some n) ≡ err e))
unfolding check_authority
check_authority-cases i s b w n = elim (Fallible-cases (check_authority i s b w (some n))) [
  | inl (m, h) ↦ inl (ground arith)
  | inr found ↦ inr found
]

check_authority-found :
    (i : PrepareAttemptInput) (s : State) (b : Activity) (w : Workflow)
    → (e : Error) × (check_authority i s b w none ≡ err e)
unfolding check_authority
check_authority-found i s b w = elim (Fallible-cases (check_authority i s b w none)) [
  | inl (m, h) ↦ absurd (ground arith)
  | inr found ↦ found
]

pub open_preparation :
    (env : Environment) (i : PrepareAttemptInput) (s : State) (now : Time)
    (d : List DomainEvent × String)
    → prepare_attempt env i s now ≡ ok d
    → IsGuarded env i s now d
unfolding prepare_attempt
open_preparation env i s now d h = elim (Option-cases (lookup i.activity_id s.activities)) [
  | inl z ↦ absurd (ground arith)
  | inr (b, hb) ↦ elim (Option-cases (lookup b.workflow_id s.workflows)) [
    | inl z ↦ absurd (ground arith)
    | inr (w, hw) ↦ elim (Option-cases (lookup b.node_id w.nodes)) [
      | inl z ↦ absurd (ground (arith, (check_authority-found i s b w).1))
      | inr (n, hn) ↦ elim (check_authority-cases i s b w n) [
        | inr (e, z) ↦ absurd (ground arith)
        | inl authorized ↦ record {
          activity = b;
          workflow = w;
          node = n;
          activity_found = hb;
          workflow_found = hw;
          node_found = hn;
          unpaused = ground arith;
          due = ground arith;
          checked = ground arith;
          authorized = authorized;
          room = ground arith;
          decided = ground arith;
        }
      ]
    ]
  ]
]

-- What a launch leaves: one live attempt of the activity and one active lease of the worktree, one
-- launch more, within the budget, and an ordinal above those of the activity's attempts.
pub record IsSole (env : Environment) (i : PrepareAttemptInput) (s t : State) (now : Time)
    (d : List DomainEvent × String) (g : IsGuarded env i s now d) : Type 0 where
  pub live : count (is_live_for g.activity.id) (values t.attempts) ≡ 1
  pub writer : count (holds_worktree g.node.work.root) (values t.leases) ≡ 1
  pub launched : launches_of t g.activity.id ≡ suc (launches_of s g.activity.id)
  pub budgeted : leb_ℤ (pos (launches_of t g.activity.id)) g.workflow.budget.max_launches ≡ true
  pub numbered :
      All
        (λ a.
          is_for g.activity.id a ≡ true
          → a.ordinal < (new_attempt env i s g.activity g.node now).ordinal)
        (values s.attempts)

kept :
    (env : Environment) (i : PrepareAttemptInput) (s u t : State) (b : Activity)
    → apply_events u (dispatches env i s b) ≡ ok t
    → (t.attempts ≡ u.attempts) × (t.leases ≡ u.leases)
unfolding dispatches
kept env i s u t b h =
    dispatches-keep u t
      (keep (λ m. m.activity_id == b.id && is_queued m.state) (ordered_messages s))
      (stable_id env "attempt" i.idempotency_key) (next_delivery_generation s b.session_id) h

stored :
    (s u : State) (a : Attempt) (l : Lease)
    → apply_attempt_prepared s (some a) (some l) ≡ ok u
    → (u.attempts ≡ put a.id a s.attempts)
      × (u.leases ≡ put l.id l s.leases)
      × (is_some (lookup a.id s.attempts) ≡ false)
      × (is_some (lookup l.id s.leases) ≡ false)
unfolding apply_attempt_prepared
stored s u a l h = (ground arith, ground arith, ground arith, ground arith)

has_room :
    (s : State) (b : Activity) (w : Workflow) (n : Node)
    → check_room s b w n ≡ ok tt
    → (any (is_live_for b.id) (values s.attempts) ≡ false)
      × (any (holds_worktree n.work.root) (values s.leases) ≡ false)
      × (leb_ℤ w.budget.max_launches (pos (launches_of s b.id)) ≡ false)
unfolding check_room
has_room s b w n h = (ground arith, ground arith, ground arith)

sole :
    (env : Environment) (i : PrepareAttemptInput) (s u t : State) (now : Time)
    (d : List DomainEvent × String) (g : IsGuarded env i s now d)
    → apply_attempt_prepared s
        (some (new_attempt env i s g.activity g.node now))
        (some (new_lease env i g.activity g.node now))
      ≡ ok u
    → (t.attempts ≡ u.attempts) × (t.leases ≡ u.leases)
    → IsSole env i s t now d g
unfolding new_attempt new_lease launches_of attempt_has_exit
sole env i s u t now d g hu k =
    let a = new_attempt env i s g.activity g.node now in
    let l = new_lease env i g.activity g.node now in
    let (attempts, leases, fresh, free) = stored s u a l hu in
    let (alone, unheld, room) = has_room s g.activity g.workflow g.node g.room in
    let self = eq_refl g.activity.id in
    let root = eq_refl g.node.work.root in
    let lives = count-put (is_live_for g.activity.id) a.id a s.attempts fresh in
    let writers = count-put (holds_worktree g.node.work.root) l.id l s.leases free in
    let launches = count-put (is_for g.activity.id) a.id a s.attempts fresh in
    let none_live = any-count (is_live_for g.activity.id) (values s.attempts) alone in
    let none_held = any-count (holds_worktree g.node.work.root) (values s.leases) unheld in
    record {
      live = rw (k.0, attempts, lives) (ground (arith, self, none_live));
      writer = rw (k.1, leases, writers) (ground (arith, root, none_held));
      launched = rw (k.0, attempts, launches, self) refl;
      budgeted = rw (k.0, attempts, launches, self) (ground (arith, room));
      numbered = (raise_ordinal-above g.activity.id 1 (values s.attempts)).1;
    }

-- A launch that is prepared and reduced leaves the activity with one live attempt and the worktree
-- with one active lease; the budgets had room for it, the workflow was not paused, and the ordinal
-- of the attempt passes those of the activity's earlier attempts.
pub prepare_attempt-exclusive :
    (env : Environment) (i : PrepareAttemptInput) (s t : State) (now : Time)
    (d : List DomainEvent × String)
    → prepare_attempt env i s now ≡ ok d
    → apply_events s d.0 ≡ ok t
    → (g : IsGuarded env i s now d) × IsSole env i s t now d g
unfolding apply_events apply_domain_event
prepare_attempt-exclusive env i s t now d h a =
    let g = open_preparation env i s now d h in
    let found = new_attempt env i s g.activity g.node now in
    let (u, hu, ht) =
      >>=-eq-ok
        (apply_attempt_prepared s (some found) (some (new_lease env i g.activity g.node now)))
        (λ u. apply_events u (dispatches env i s g.activity))
        (subst (λ d. apply_events s d.0 ≡ ok t) (sym g.decided) a) in
    (g, sole env i s u t now d g hu (kept env i s u t g.activity ht))
