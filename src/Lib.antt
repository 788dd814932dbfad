-- ===== src/Lib.antt =====
-- sonata: a local workflow daemon. A message is appended to a queue of an SQLite store; each enabled
-- action that reads the queue gets a delivery of it; the scheduler claims deliveries, runs the
-- action's command, and records the outcome, whose output lines become messages in turn. This
-- library models the store, the definitions of actions, the scheduler, the executor's classification,
-- the request handlers, the configuration, the start and the end of the daemon's process, the
-- commands, and the daemon as an interleaving of its goroutines.
--
-- Store (internal/store)
--   Store/Types        the rows, and the transaction of `write` in store.go
--   Store/Timestamp    the order of the RFC 3339 texts that the SQL statements compare
--   Store/Id           NewID of id.go
--   Store/Migrations   Open, Close and migrate of store.go; Migrations/Resuming is a run after one
--     that failed, Migrations/Opened what a run leaves
--   Store/Messages     insertMessage, materializeDeliveries, AppendMessage, CompleteDelivery
--   Store/Deliveries   the other writes of deliveries.go
--   Store/Actions      actions.go
--   Store/Queries      the reads of deliveries.go and messages.go
--   Store/Soundness, Unique, Preserve    the invariant of the deliveries table
--   Store/Growing      what the INSERTs keep, as an induction
--   Store/Lifecycle    the abstract machine of a delivery's states, and the writes beside it
--   Store/Counting, Emitting, Eligible, Versions    what the single operations do
--   Store/Descending, Paging    the lists, page after page
-- Workflow (internal/workflow)
--   Workflow/Definition, Parse    action.go; Parse/Canonical is the canonical form parsed again
--   Workflow/Names, Validate      validate.go: the regular expressions and the checks; Validate/Valid
--     says what a valid definition is, apart from the order of the checks
--   Workflow/Cel                  cel.go; the cache in Cel/Coherence
-- Executor (internal/executor/executor.go): Executor/Buffers, Executor/Outcome
-- Scheduler (internal/scheduler)
--   Scheduler/Config, Backoff, Ndjson, Headers, State, Vet, Dispatch, Apply, Drain
--     scheduler.go, reap.go
--   Scheduler/Wakeup    the channel of the nudges, with the loop and the handlers around it
--   Scheduler/Verdict, Capacity, Finishing, Unloaded    what vet and dispatch do
--   Scheduler/Reaping, Headers/Lineage, Ndjson/Lines, Backoff/Bounds    what reaping, the outputs
--     and the backoff do
--   Scheduler/Closure    dispatch as an induction, which the proofs about it instantiate
--   Scheduler/Balance, Recording    the busy counter, function by function
-- Api (internal/api): the handlers of server.go, deliveries.go and actions.go; Api/Actions those that
--   apply, list and disable actions, Api/Transport `handle` of server.go and `post` of client.go,
--   Api/Client the methods of the client, Api/Server the routes of the server
-- Config (internal/config/config.go): Load and Env, and Config/Propagation for the two together
-- Daemon (internal/daemon)
--   Daemon/Steps    the step relation of the scheduler's goroutine, the workers and the handlers
--   Daemon/Registry    what the writes of actions leave alone
--   Daemon/Busy, Lifecycle, Draining    the busy counter and the deliveries along its runs, and the
--     end of a run
--   Daemon/Idle     the idle tracker of daemon.go; Idle/Exit puts it beside the store
--   Daemon/Ensure   EnsureRunning of ensure.go, called by several processes at once;
--     Ensure/Sequence is one call of it, and Ensure/Settling the processes that it leaves
--   Daemon/Run      Run of daemon.go as the sequence of its effects; Run/Order says which order is
--     safe, and Run/Fleet puts several processes beside each other
--   Daemon/Spawn    spawn.go: Spawn, LogTail, WaitReady (Spawn/Ready) and Stop (Spawn/Graceful)
--   Daemon/Lock     lock.go; Lock/Waiting is the loop of AcquireWait
-- Cli (internal/cli): Cli the exit codes of root.go, Cli/Lifecycle the commands that start, stop and
--   probe the daemon, Cli/Requests and Commands those that call it; Cli/Exits, Stopping, Naming,
--   Sending and Applying what they do
-- Prelude: the names and lemmas that all share. Examples: runs on small data.
--
-- A struct is a record and a table a list of rows; an UPDATE is a map over the rows that its WHERE
-- clause selects. A function that changes state takes the state and returns the new one; a Go error
-- is a Result. A write transaction may fail to begin or commit: `commits` of the environment says
-- which ones do. Numbers are ℕ, or ℤ where the source may hold a negative one; time.Duration in the
-- backoff is kept modulo 2 ^ 64. A text is the list of its characters or bytes. An id in a row is
-- its rank among the ids that NewID gives out, and Store/Id models the texts themselves.
--
-- Parameters: encoding/json and the YAML library (what is valid, how definitions decode and encode),
-- cel-go (what the checker and the evaluator answer), viper (what a key resolves to), path/filepath,
-- the operating system (what a child process, a lock and the environment answer), clocks and random
-- bytes.
--
-- The two loops of dispatch over an action's deliveries run on fuel, and `none` is running out of
-- it; one unit more than there are waiting rows is enough when the transactions commit, since each
-- round but the last takes a row out of them. The loop of AcquireWait runs on fuel likewise: more
-- attempts than pauses of 20 ms fit into its timeout are enough. So do the loops of Stop, where more
-- rounds than pauses of 25 ms are enough, and of WaitReady, which ends with its context.
--
-- Not modelled: SQLite, what the migration files say, and reads of rows that fail, except those of
-- NextEligible in dispatch; HTTP beyond the status and the body, and the conversions to response
-- structs; what processes, signals and sockets do on their own; the flags, the help and the output
-- of the commands. The float64 rounding of the jitter is left out, and header numbers are the
-- integers that the program takes from them.
pub mod Prelude
pub mod Workflow
pub mod Store
pub mod Executor
pub mod Scheduler
pub mod Api
pub mod Config
pub mod Daemon
pub mod Cli
pub mod Examples
