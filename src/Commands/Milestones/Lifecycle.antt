-- ===== src/Commands/Milestones/Lifecycle.antt =====
-- validateMilestone as the guard of the attempt's state machine: what it lets pass
-- keeps an attempt's milestones a run of the machine, in the order of their times.
use durable_agent_handoff.Prelude.{
  String, ◌≡◌, refl, sym, subst, ◌≢◌, inl, inr, true, false, some, List, [], ◌∷◌, ◌++◌, arith,
  eq_iff, eq_refl, Assoc, lookup, put, lookup-put, Option-cases, is_some, any-append, Error, ok,
  err, Fallible-cases,
}
use durable_agent_handoff.Types.{
  Time, before, is_turn_started, NativeSessionIdentity, native_eq, Session, Activity, Milestone,
  Attempt, State,
}
use durable_agent_handoff.Reducer.Runs.{bind_process, bind_session, apply_milestone}
use durable_agent_handoff.Commands.Milestones.{
  turn_seen, precedes_last, validate_kind, validate_milestone,
}
use durable_agent_handoff.Commands.Milestones.Machine.{
  IsChronological, Phase, advance, run, Flags, run-Flags, run-append,
}

-- The milestones are a run from the start, at times that do not fall, and the attempt has its
-- process once a turn has started.
pub record IsLifecycle (a : Attempt) : Type 0 where
  pub phase : Phase
  pub ran : run Phase.starting a.milestones ≡ some phase
  pub spawned : turn_seen a.milestones ≡ true → is_some a.process ≡ true
  pub ordered : IsChronological a.created_at a.milestones

-- validateMilestone admits no kind that the machine refuses.
validate_milestone-advance :
    (s : State) (a : Attempt) (activity : Activity) (m : Milestone) (q : Phase)
    → (turn_seen a.milestones ≡ true → is_some a.process ≡ true)
    → Flags Phase.starting q a.milestones
    → validate_milestone s a activity m ≡ ok tt
    → (r : Phase) × (advance q m.kind ≡ some r)
unfolding validate_milestone validate_kind advance
validate_milestone-advance s a activity m q sp f v = elim (Option-cases (advance q m.kind)) [
  | inr found ↦ found
  | inl z ↦ absurd (ground (arith, f.exit, f.turn, f.report, f.failure, sp))
]

IsChronological-end :
    (t : Time) (x : Milestone) (ms : List Milestone) (m : Milestone)
    → IsChronological t (x ∷ ms)
    → precedes_last m.at (x ∷ ms) ≡ false
    → IsChronological t (x ∷ ms ++ m ∷ [])
unfolding precedes_last
IsChronological-end t x [] m c p = (c.0, (ground arith, tt))
IsChronological-end t x (y ∷ ms) m c p = (c.0, IsChronological-end x.at y ms m c.1 p)

IsChronological-append :
    (t : Time) (ms : List Milestone) (m : Milestone)
    → IsChronological t ms
    → before m.at t ≡ false
    → precedes_last m.at ms ≡ false
    → IsChronological t (ms ++ m ∷ [])
IsChronological-append t [] m c b p = (ground arith, tt)
IsChronological-append t (x ∷ ms) m c b p = IsChronological-end t x ms m c p

module _ (s : State) (a : Attempt) (activity : Activity) (m : Milestone) (live : IsLifecycle a)
    (v : validate_milestone s a activity m ≡ ok tt) where
  abbrev extended : Attempt
  extended = record a { milestones = a.milestones ++ m ∷ [] }

  times : IsChronological a.created_at extended.milestones
  unfolding validate_milestone
  times =
      IsChronological-append a.created_at a.milestones m live.ordered (ground arith) (ground arith)

  -- The process is there once a turn has started: a milestone that starts one finds it.
  keeps_process :
      (b : Attempt)
      → bind_process extended m ≡ ok b
      → turn_seen b.milestones ≡ true
      → is_some b.process ≡ true
  unfolding bind_process validate_milestone validate_kind
  keeps_process b h t =
      ground (arith, live.spawned, any-append (λ x. is_turn_started x.kind) a.milestones (m ∷ []))

  unchanged :
      (b : Attempt)
      → bind_process extended m ≡ ok b
      → (b.milestones ≡ extended.milestones) × (b.created_at ≡ a.created_at)
  unfolding bind_process
  unchanged b h = (ground arith, ground arith)

  bound-IsLifecycle : (b : Attempt) → bind_process extended m ≡ ok b → IsLifecycle b
  bound-IsLifecycle b h =
      let (milestones, created) = unchanged b h in
      let (r, step) =
        validate_milestone-advance s a activity m live.phase live.spawned
          (run-Flags Phase.starting live.phase a.milestones live.ran) v in
      record {
        phase = r;
        ran = rw milestones (run-append Phase.starting live.phase r a.milestones m live.ran step);
        spawned = keeps_process b h;
        ordered = rw (milestones, created) times;
      }

native_eq_comm : (a b : NativeSessionIdentity) → native_eq a b ≡ native_eq b a
native_eq_comm a b = ground (
  arith,
  eq_iff a.runtime b.runtime,
  eq_iff b.runtime a.runtime,
  eq_iff a.id b.id,
  eq_iff b.id a.id,
)

module _ (s : State) (a b : Attempt) (activity : Activity) (m : Milestone)
    (ats : Assoc Attempt) where
  -- The identity that validateMilestone compares is the one that the reducer compares.
  binds_checked :
      (n : NativeSessionIdentity) (x : Session)
      → m.session ≡ some n
      → lookup activity.session_id s.sessions ≡ some x
      → lookup b.activity_id s.activities ≡ some activity
      → validate_milestone s a activity m ≡ ok tt
      → (e : Error) → bind_session (record s { attempts = ats }) b m ≢ err e
  unfolding bind_session validate_milestone validate_kind
  binds_checked n x hn hx hb v e = ground (arith, native_eq_comm n x.native)

  binds_session :
      lookup b.activity_id s.activities ≡ some activity
      → validate_milestone s a activity m ≡ ok tt
      → (e : Error) → bind_session (record s { attempts = ats }) b m ≢ err e
  unfolding bind_session validate_milestone validate_kind
  binds_session hb v e h = elim (Option-cases m.session) [
    | inl hn ↦ ground arith
    | inr (n, hn) ↦ elim (Option-cases (lookup activity.session_id s.sessions)) [
      | inl hx ↦ ground arith
      | inr (x, hx) ↦ binds_checked n x hn hx hb v e h
    ]
  ]

attempts-bind_session :
    (s t : State) (b : Attempt) (m : Milestone)
    → bind_session s b m ≡ ok t
    → t.attempts ≡ s.attempts
unfolding bind_session
attempts-bind_session s t b m h = ground arith

binds_process :
    (s : State) (a : Attempt) (activity : Activity) (m : Milestone)
    → validate_milestone s a activity m ≡ ok tt
    → (b : Attempt) × (bind_process (record a { milestones = a.milestones ++ m ∷ [] }) m ≡ ok b)
      × (b.activity_id ≡ a.activity_id)
unfolding bind_process validate_milestone validate_kind
binds_process s a activity m v =
    elim (Fallible-cases (bind_process (record a { milestones = a.milestones ++ m ∷ [] }) m)) [
      | inl (b, h) ↦ (b, h, ground arith)
      | inr (e, h) ↦ absurd (ground arith)
    ]

-- A milestone that validateMilestone accepts, for an attempt of the state whose milestones are a run
-- of the machine and whose activity the state has, is reduced without an error; it leaves the attempt
-- on a run of the machine, at times that do not fall, with a process if it has started a turn.
pub recorded-IsLifecycle :
    (s : State) (id : String) (a : Attempt) (activity : Activity) (m : Milestone)
    → lookup id s.attempts ≡ some a
    → lookup a.activity_id s.activities ≡ some activity
    → IsLifecycle a
    → validate_milestone s a activity m ≡ ok tt
    → (t : State) × (b : Attempt) × (apply_milestone s id m ≡ ok t)
      × (lookup id t.attempts ≡ some b)
      × IsLifecycle b
unfolding apply_milestone
recorded-IsLifecycle s id a activity m la lb live v =
    let (b, hb, same) = binds_process s a activity m v in
    let bound = record s { attempts = put id b s.attempts } in
    elim (Fallible-cases (bind_session bound b m)) [
      | inr (e, h) ↦ absurd (
          binds_session s a b activity m (put id b s.attempts)
            (subst (λ k. lookup k s.activities ≡ some activity) (sym same) lb) v e h)
      | inl (t, h) ↦ (
        t,
        b,
        ground arith,
        rw (attempts-bind_session bound t b m h, lookup-put id id b s.attempts, eq_refl id) refl,
        bound-IsLifecycle s a activity m live v b hb,
      )
    ]
