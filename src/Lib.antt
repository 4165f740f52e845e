-- ===== src/Lib.antt =====
-- The durable supervisor: a journal of commands, the state that it reduces to, and the commands that
-- drive workflows of agent activities over it.
--
-- A client asks the store to execute a command. The store replays the journal (Journal) through the
-- reducer (Reducer), which applies domain events (Events) to the state (Types), finds out whether the
-- command's key is known, lets the command decide (Commands, by the reads of Queries), validates the
-- events on a copy of the state, and appends one entry under the next sequence number.
--
-- - Prelude: errors as values, maps, texts, signed integers and lists over native numbers.
-- - Types: internal/supervisor/types.go. Enums has the named texts, Specs and Records the structs, Store the
--   state. A text type has a constructor for each constant and one for any other text.
-- - Environment: what comes from outside (digests, directories, the decoder of runtime arguments),
--   with stableID and canonicalDirectory. Paths: withinRoot over filepath.Clean and filepath.Rel.
--   Runtimes: validateRuntime, sameRuntime and runtimeAllowed.
-- - Events: the payloads of internal/supervisor/reducer.go and the entries of
--   internal/supervisor/journal.go.
-- - Reducer: applyEntry and applyDomainEvent, by groups of events (Work, Runs, Effects),
--   validateDAG (Dag) and validateState (Validate).
-- - Journal: Store.Execute, Store.Projection and Store.Events. Execute is a plan, which reads, and
--   carry_out, which appends.
-- - Queries: the reads of internal/supervisor/commands.go and internal/supervisor/projection.go;
--   Ordered has those that sort.
-- - Commands: each command's decide of internal/supervisor/commands.go: Start (StartExecution and
--   SetRoleLadder), Graph (AddNode, QueueActivity), Continuation (ContinueSession,
--   StartFallbackActivity), Prepare, Record, Milestones (validateMilestone), Turn, Pausing, Controls;
--   and Finalizer: the two commands of internal/supervisor/finalizer.go with ProjectPublication.
-- - Commands.Recovery: internal/supervisor/recovery.go with InspectMatch of
--   internal/processidentity/processidentity.go.
-- - Views: the rest of internal/supervisor/projection.go: projectActivity (Activities), projectAttempt
--   (Attempts) and ProjectExecution (Executions).
-- - Gate: internal/githubgate/gate.go, and Store.Finalize's checks of a request and its use of the gate
--   for a prepared publication.
-- - Executor, Evaluator: selectRuntime, pendingControl and the reads of internal/executor/executor.go,
--   and Evaluate of internal/evaluator/openrouter.go with the exchange over HTTP as an argument.
-- - Storage: internal/secureledger/ledger.go: bytes.TrimSpace (Bytes), readLine (Lines), walk and
--   parseSequence (Walk), repairTail (Repair), Txn.Append (Append), acquire, release and Update
--   (Locking), ReadBlob (Blobs).
-- - Tests: the theorems at concrete inputs.
--
-- Choices. A Go map is an association list, and a range over it visits the list in order. A pointer
-- that may be nil is an Option; a map holds no nil value. An error keeps its format text and drops
-- its variable parts. A time is the number of nanoseconds since the zero time, in UTC.
-- Sequences, generations and the duration of a wake interval are reduced modulo 2 ^ 64 where the source
-- computes them; ordinals and counts are natural numbers. Encoding and
-- decoding by encoding/json is the identity, so a clone is the value; a payload that does not decode
-- is an event of its own. A reducer error leaves no state behind, since every caller drops it.
-- The search of validateDAG runs on fuel, one call more than there are nodes.
--
-- The file of the ledger is a list of bytes. What the operating system answers is an argument, so that
-- a theorem holds for every answer: the outcomes of a write and of the checks around it, the lock and
-- the clock, whether a process is alive, what gh prints. Decoding a record's sequence is an argument as
-- well. The wait for the lock has 1002 attempts, more than ten seconds have room for with a pause of ten
-- milliseconds; readLine and walk have one turn more than there are bytes; the views have fuel for
-- chains of fallback activities. What is found of a process is the same at each look, and the mutex of
-- a Ledger within one process is left out.
--
-- Not modelled: the identity checks of directories and files, the snapshot and the errors of reading and
-- truncating in internal/secureledger; the calls of Execute in Store.Finalize; the reader of version 1
-- files; and the programs around the store (internal/service, internal/driver, cmd/handoff,
-- and the rest of internal/executor and internal/evaluator), which run processes and talk to networks.
pub mod Prelude
pub mod Types
pub mod Environment
pub mod Paths
pub mod Events
pub mod Runtimes
pub mod Reducer
pub mod Journal
pub mod Storage
pub mod Queries
pub mod Views
pub mod Commands
pub mod Gate
pub mod Executor
pub mod Evaluator
pub mod Tests
