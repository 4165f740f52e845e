-- ===== src/Storage/Locking.antt =====
-- Ledger.acquire, Txn.release and Ledger.Update of internal/secureledger/ledger.go. What the file
-- system and the lock answer is an argument, and so is how far the clock goes on between its readings.
pub mod Waiting
use durable_agent_handoff.Prelude.{
  ℕ, zero, suc, ◌+◌, ◌-◌, Bool, true, false, not, ◌&&◌, Option, none, some, ltb, leb, if◌then◌else◌,
  Error, invalid, out_of_fuel, Fallible, ok, err, ◌>>◌,
}

-- What TryLock answers at each attempt, the time that passes between the two readings of the clock after
-- it, and how much longer than asked the sleep that follows takes.
pub record Lock : Type 0 where
  pub try : ℕ → Fallible Bool
  pub lag : ℕ → ℕ
  pub oversleep : ℕ → ℕ

pub data Waited : Type 0 where
  locked_at : ℕ → Waited
  lock_failed : Error → Waited
  timed_out : Waited
  out_of_tries : Waited

abbrev smaller : ℕ → ℕ → ℕ
smaller a b = if ltb b a then b else a

-- What follows an attempt that did not lock: the time now, when the loop goes on.
abbrev pub wait : (retry deadline later oversleep : ℕ) → ℕ
wait retry deadline later oversleep =
    if leb deadline later then later else later + smaller retry (deadline - later) + oversleep

-- The loop of acquire from an attempt, at a time.
unfoldable pub wait_for : Lock → (retry deadline : ℕ) → (fuel attempt now : ℕ) → Bool → Waited
wait_for lock retry deadline zero attempt now first = Waited.out_of_tries
wait_for lock retry deadline (suc fuel) attempt now first =
    if not first && leb deadline now then Waited.timed_out else elim (lock.try attempt) [
      | err e ↦ Waited.lock_failed e
      | ok true ↦ Waited.locked_at attempt
      | ok false ↦
          wait_for lock retry deadline fuel (suc attempt)
            (wait retry deadline (now + lock.lag attempt) (lock.oversleep attempt)) false
    ]

-- What a transaction has open: its directory, its lock file, and the lock.
pub record Handles : Type 0 where
  pub root_open : Bool
  pub file_open : Bool
  pub locked : Bool

abbrev pub all_released : Handles
all_released = record { root_open = false; file_open = false; locked = false }

abbrev pub root_opened : Handles
root_opened = record all_released { root_open = true }

abbrev pub file_opened : Handles
file_opened = record root_opened { file_open = true }

abbrev pub all_open : Handles
all_open = record file_opened { locked = true }

-- lock.Unlock, file.Close and root.Close
abbrev pub unlock : Handles → Handles
unlock h = record h { locked = false }

abbrev pub close_file : Handles → Handles
close_file h = record h { file_open = false }

abbrev pub close_root : Handles → Handles
close_root h = record h { root_open = false }

-- lockOwner.State
pub data OwnerState : Type 0 where
  active released : OwnerState

-- The answers of openRecordRoot and openRegular, of tx.validate at "acquire" and at "release", and of
-- writeLockOwner at both.
pub record LockAnswers : Type 0 where
  pub root : Fallible (Unit {0})
  pub file : Fallible (Unit {0})
  pub lock : Lock
  pub valid_at_acquire : Fallible (Unit {0})
  pub owner_written : Fallible (Unit {0})
  pub valid_at_release : Fallible (Unit {0})

-- A wait of ten seconds with a retry each ten milliseconds, in nanoseconds
abbrev pub lock_timeout : ℕ
lock_timeout = 10000000000

abbrev pub lock_retry : ℕ
lock_retry = 10000000

-- More attempts than the wait has room for
abbrev pub enough_tries : ℕ
enough_tries = 1002

-- A taken lock is given back when a check after it fails.
abbrev pub hold : Fallible (Unit {0}) → Handles × Fallible (Unit {0})
hold (err e) = (close_root (close_file (unlock all_open)), err e)
hold (ok _) = (all_open, ok tt)

-- acquire after the wait: the handles, and the error if there is one
abbrev pub after_wait : LockAnswers → Waited → Handles × Fallible (Unit {0})
after_wait answers (Waited.locked_at attempt) =
    hold (answers.valid_at_acquire >> answers.owner_written)
after_wait answers (Waited.lock_failed e) = (close_root (close_file file_opened), err e)
after_wait answers Waited.timed_out = (
  close_root (close_file file_opened),
  err (invalid "timed out waiting for secure ledger record %s lock"),
)
after_wait answers Waited.out_of_tries = (all_open, err out_of_fuel)

-- An error before the wait, with what is left open.
abbrev pub if_opened :
    Handles → Fallible (Unit {0}) → Handles × Fallible (Unit {0}) → Handles × Fallible (Unit {0})
if_opened left (err e) next = (left, err e)
if_opened left (ok _) next = next

unfoldable pub acquire : LockAnswers → ℕ → Handles × Fallible (Unit {0})
acquire answers now = if_opened all_released answers.root (
    if_opened (close_root root_opened) answers.file (
      after_wait answers
        (wait_for answers.lock lock_retry (now + lock_timeout) enough_tries 0 now true)))

-- release: what the lock file then says of its owner, and the handles. An error of the write that
-- marks the owner as released is dropped.
unfoldable pub release : LockAnswers → Handles → OwnerState × Handles
release answers handles = (
  elim answers.valid_at_release [ err e ↦ OwnerState.active | ok _ ↦ OwnerState.released ],
  close_root (close_file (unlock handles)),
)

-- The callback runs on the ledger under what is held then; the deferred release follows.
abbrev pub run_held {ℓ} :
    {S : Type ℓ}
    → LockAnswers
    → (Handles → S → S × Fallible (Unit {0}))
    → S
    → Handles × Fallible (Unit {0})
    → S × Handles × Fallible (Unit {0})
run_held answers run state (handles, err e) = (state, handles, err e)
run_held answers run state (handles, ok _) =
    ((run handles state).0, (release answers handles).1, (run handles state).1)

-- Update with its callback, a run on the ledger that may depend on what is held: what the callback
-- leaves, what is held at the end and what is returned. The mutex of the process is left out.
unfoldable pub update {ℓ} :
    {S : Type ℓ}
    → LockAnswers
    → Fallible (Unit {0})
    → Option (Handles → S → S × Fallible (Unit {0}))
    → ℕ
    → S
    → S × Handles × Fallible (Unit {0})
update answers (err e) run now state = (state, all_released, err e)
update answers (ok _) none now state =
    (state, all_released, err (invalid "secure ledger update callback is required"))
update answers (ok _) (some run) now state = run_held answers run state (acquire answers now)
