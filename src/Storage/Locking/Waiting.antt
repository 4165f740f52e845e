-- ===== src/Storage/Locking/Waiting.antt =====
-- The wait for the lock ends, and nothing stays open after an error.
use durable_agent_handoff.Prelude.{
  ℕ, zero, suc, ◌+◌, ◌*◌, ◌≤◌, ◌≡◌, refl, ap, ◌⊎◌, inl, inr, Bool, true, false, not, ◌&&◌, Option,
  none, some, arith, leb, Bool-cases, Error, Fallible, ok, err, ◌>>◌, Fallible-cases,
}
use durable_agent_handoff.Storage.Locking.{
  Lock, Waited, wait, wait_for, Handles, all_released, root_opened, close_root, all_open,
  LockAnswers, lock_timeout, lock_retry, enough_tries, hold, if_opened, run_held, after_wait,
  acquire, release, update,
}

-- What the end of a wait says: the lock was taken at the attempt named, or it failed at one, or the
-- attempts from the first to one at which the deadline had passed did not lock.
abbrev pub IsWaited : Lock → Waited → Type 0
IsWaited lock (Waited.locked_at attempt) = lock.try attempt ≡ ok true
IsWaited lock (Waited.lock_failed e) = (attempt : ℕ) × (lock.try attempt ≡ err e)
IsWaited lock Waited.timed_out = (attempt : ℕ) × (lock.try attempt ≡ ok false)
IsWaited lock Waited.out_of_tries = ⊥

-- An attempt that locks, fails or does not lock.
wait_for-tried :
    (lock : Lock) (retry deadline fuel attempt now : ℕ) (first : Bool)
    → (not first && leb deadline now) ≡ false
    → (lock.try attempt ≡ ok false
        → IsWaited lock (
            wait_for lock retry deadline fuel
              (suc attempt)
              (wait retry deadline (now + lock.lag attempt) (lock.oversleep attempt))
              false))
    → IsWaited lock (wait_for lock retry deadline (suc fuel) attempt now first)
unfolding wait_for
wait_for-tried lock retry deadline fuel attempt now first early next =
    elim (Fallible-cases (lock.try attempt)) [
      | inr (e, failed) ↦ rw (early, failed) (attempt, failed)
      | inl (true, taken) ↦ rw (early, taken) taken
      | inl (false, busy) ↦ rw (early, busy) (next busy)
    ]

-- After the deadline only a first attempt is made.
wait_for-late :
    (lock : Lock) (retry deadline fuel attempt now : ℕ) (first : Bool)
    → (i : ℕ) × (lock.try i ≡ ok false)
    → (not first && leb deadline now) ≡ true
    → IsWaited lock (wait_for lock retry deadline (suc fuel) attempt now first)
unfolding wait_for
wait_for-late lock retry deadline fuel attempt now first busy late = rw late busy

is_past : (deadline now : ℕ) → deadline ≤ now → (not false && leb deadline now) ≡ true
is_past deadline now h = ground (arith, h)

wait-late :
    (retry deadline later oversleep : ℕ)
    → deadline ≤ later
    → deadline ≤ wait retry deadline later oversleep
wait-late retry deadline later oversleep late = ground (arith, late)

wait-advances :
    (retry deadline later oversleep rounds : ℕ)
    → deadline ≤ later + suc rounds * retry
    → deadline ≤ wait retry deadline later oversleep + rounds * retry
wait-advances retry deadline later oversleep rounds h = ground (arith, h)

-- The attempts from a time on, with as many retries left as the deadline is away.
wait_for-ends :
    (lock : Lock) (retry deadline rounds fuel attempt now : ℕ) (first : Bool)
    → (first ≡ true) ⊎ ((i : ℕ) × (lock.try i ≡ ok false))
    → deadline ≤ now + rounds * retry
    → rounds + 2 ≤ fuel
    → IsWaited lock (wait_for lock retry deadline fuel attempt now first)
wait_for-ends lock retry deadline rounds zero attempt now first before near enough =
    absurd (omega (arith, enough))
wait_for-ends lock retry deadline rounds (suc zero) attempt now first before near enough =
    absurd (omega (arith, enough))
wait_for-ends lock retry deadline zero (suc (suc fuel)) attempt now false before near enough =
    elim before [
      | inl e ↦ absurd cc
      | inr busy ↦
          wait_for-late lock retry deadline (suc fuel) attempt now false busy
            (is_past deadline now (omega (arith, near)))
    ]
wait_for-ends lock retry deadline zero (suc (suc fuel)) attempt now true before near enough =
    wait_for-tried lock retry deadline (suc fuel) attempt now true refl (λ busy.
      wait_for-late lock retry deadline fuel (suc attempt)
        (wait retry deadline (now + lock.lag attempt) (lock.oversleep attempt)) false
        (attempt, busy)
        (is_past deadline (wait retry deadline (now + lock.lag attempt) (lock.oversleep attempt)) (
          wait-late retry deadline (now + lock.lag attempt) (lock.oversleep attempt)
            (omega (arith, near)))))
wait_for-ends lock retry deadline (suc rounds) (suc (suc fuel)) attempt now first before near
      enough =
    elim (Bool-cases (not first && leb deadline now)) [
      | inl late ↦ elim before [
        | inl e ↦ absurd (ground (arith, e, late))
        | inr busy ↦ wait_for-late lock retry deadline (suc fuel) attempt now first busy late
      ]
      | inr early ↦ wait_for-tried lock retry deadline (suc fuel) attempt now first early (λ busy.
          wait_for-ends lock retry deadline rounds (suc fuel) (suc attempt)
            (wait retry deadline (now + lock.lag attempt) (lock.oversleep attempt)) false
            (inr (attempt, busy))
            (wait-advances retry deadline (now + lock.lag attempt) (lock.oversleep attempt) rounds
              (omega (arith, near)))
            (omega (arith, enough)))
    ]

-- What acquire returns: an error with nothing left open, or no error with all open, after an attempt
-- that locked.
abbrev pub IsAcquired : LockAnswers → Handles × Fallible (Unit {0}) → Type 0
IsAcquired answers (handles, ok _) =
    (handles ≡ all_open) × ((attempt : ℕ) × (answers.lock.try attempt ≡ ok true))
IsAcquired answers (handles, err e) = handles ≡ all_released

hold-IsAcquired :
    (answers : LockAnswers) (checked : Fallible (Unit {0})) (attempt : ℕ)
    → answers.lock.try attempt ≡ ok true
    → IsAcquired answers (hold checked)
hold-IsAcquired answers (err e) attempt taken = refl
hold-IsAcquired answers (ok _) attempt taken = (refl, (attempt, taken))

after_wait-IsAcquired :
    (answers : LockAnswers) (w : Waited)
    → IsWaited answers.lock w
    → IsAcquired answers (after_wait answers w)
after_wait-IsAcquired answers (Waited.locked_at attempt) taken =
    hold-IsAcquired answers (answers.valid_at_acquire >> answers.owner_written) attempt taken
after_wait-IsAcquired answers (Waited.lock_failed e) w = refl
after_wait-IsAcquired answers Waited.timed_out w = refl
after_wait-IsAcquired answers Waited.out_of_tries w = elim w [ ]

-- acquire returns, whatever the lock answers and however the clock goes on, within the attempts that
-- ten seconds of waits of ten milliseconds have room for. Without an error the directory, the lock file
-- and the lock are held, and an attempt took the lock; with an error none of them is.
pub acquire-IsAcquired :
    (answers : LockAnswers) (now : ℕ) → IsAcquired answers (acquire answers now)
unfolding acquire
acquire-IsAcquired answers now = if_opened-IsAcquired all_released answers.root _ refl (
    if_opened-IsAcquired (close_root root_opened) answers.file _ refl (
      after_wait-IsAcquired answers
        (wait_for answers.lock lock_retry (now + lock_timeout) enough_tries 0 now true)
        (wait_for-ends answers.lock lock_retry (now + lock_timeout) 1000 enough_tries 0 now true
          (inl refl) (omega arith) (omega arith))))
  where
    if_opened-IsAcquired :
        (left : Handles) (opened : Fallible (Unit {0})) (next : Handles × Fallible (Unit {0}))
        → left ≡ all_released
        → IsAcquired answers next
        → IsAcquired answers (if_opened left opened next)
    if_opened-IsAcquired left (err e) next closed x = closed
    if_opened-IsAcquired left (ok _) next closed x = x

-- What is said of the end of Update: all is given back, and either the state is as it was and an error
-- is returned, or the lock was taken and the state and the result are those of one run.
abbrev pub IsUpdated {ℓ} :
    {S : Type ℓ}
    → LockAnswers
    → Option (Handles → S → S × Fallible (Unit {0}))
    → S
    → S × Handles × Fallible (Unit {0})
    → Type ℓ
IsUpdated {S = S} answers run state (after, handles, result) =
    (handles ≡ all_released)
    × (((after ≡ state) × ((e : Error) × (result ≡ err e)))
        ⊎ ((f : Handles → S → S × Fallible (Unit {0})) × (attempt : ℕ) × (run ≡ some f)
            × (answers.lock.try attempt ≡ ok true)
            × ((after, result) ≡ f all_open state)))

release-all :
    (answers : LockAnswers) (handles : Handles) → (release answers handles).1 ≡ all_released
unfolding release
release-all answers handles = refl

run_held-IsUpdated {ℓ} :
    {S : Type ℓ} (answers : LockAnswers) (run : Handles → S → S × Fallible (Unit {0})) (state : S)
    (x : Handles × Fallible (Unit {0}))
    → IsAcquired answers x
    → IsUpdated answers (some run) state (run_held answers run state x)
run_held-IsUpdated answers run state (handles, err e) none_held = (none_held, inl (refl, (e, refl)))
run_held-IsUpdated answers run state (handles, ok _) (held, (attempt, taken)) =
    (release-all answers handles, inr (run, attempt, refl, taken, ap (λ h. run h state) held))

-- Update runs its callback at most once and only under the lock. Whatever the file system and the lock
-- answer it ends with the directory, the lock file and the lock given back, and either leaves the state
-- as it was and returns an error, or leaves and returns what the one run did while all three were held.
pub update-IsUpdated {ℓ} :
    {S : Type ℓ} (answers : LockAnswers) (valid_id : Fallible (Unit {0}))
    (run : Option (Handles → S → S × Fallible (Unit {0}))) (now : ℕ) (state : S)
    → IsUpdated answers run state (update answers valid_id run now state)
unfolding update
update-IsUpdated answers (err e) run now state = (refl, inl (refl, (e, refl)))
update-IsUpdated answers (ok _) none now state = (refl, inl (refl, (_, refl)))
update-IsUpdated answers (ok _) (some run) now state =
    run_held-IsUpdated answers run state (acquire answers now) (acquire-IsAcquired answers now)
