-- ===== src/Executor/Outcome.antt =====
-- internal/executor/executor.go: how Execute classifies a run. What the operating system does is a
-- parameter of each function: whether the command starts, which of the three events the select
-- takes, and what cmd.Wait returns.
use sonata.Prelude.{
  ◌≡◌, ◌≢◌, ◌↔◌, refl, Bool, true, false, Option, none, some, List, [], ◌∷◌, ◌++◌, Text, ◌⊎◌, inl,
  inr, if◌then◌else◌,
}

-- Why the context of the run is done: its deadline, or the daemon's shutdown.
pub data Done : Type 0 where
  deadline_exceeded cancelled : Done

-- The event that the select takes. The child has exited with the result of cmd.Wait; the context is
-- done, and then killGroup has returned the child's result; or the output exceeds its cap.
pub data Event : Type 0 where
  exited : Option Text → Event
  context_done : Done → Option Text → Event
  stdout_exceeded : Event

pub data ExecError : Type 0 where
  empty_command : ExecError
  spawn : Text → ExecError
  timeout : ExecError
  was_cancelled : ExecError → ExecError
  wait_failed : Text → ExecError
  stdout_cap : ExecError

-- `timedOut`.
unfoldable pub timed_out : Event → Bool
timed_out (context_done deadline_exceeded wait) = true
timed_out _ = false

-- `waitErr`, with the error that the cap makes.
unfoldable pub wait_error : Event → Option ExecError
wait_error (exited none) = none
wait_error (exited (some e)) = some (wait_failed e)
wait_error (context_done why none) = none
wait_error (context_done why (some e)) = some (wait_failed e)
wait_error stdout_exceeded = some stdout_cap

pub data Signal : Type 0 where
  sigterm sigkill : Signal

-- killGroup: what it sends to the process group; `graceful` is whether the child exits within the
-- grace period.
unfoldable pub kill_group : Bool → List Signal
kill_group true = sigterm ∷ sigkill ∷ []
kill_group false = sigterm ∷ sigkill ∷ sigkill ∷ []

-- The signals of Execute: none to a child that exits by itself.
unfoldable pub signals : Event → Bool → List Signal
unfolding kill_group
signals (exited wait) graceful = []
signals (context_done why wait) graceful = kill_group graceful
signals stdout_exceeded graceful = kill_group graceful

-- The final switch; `ctx_err` is whether ctx.Err() is set by then, and `overflowed` the flag of the
-- capped buffer.
unfoldable pub classify : Bool → Bool → Event → Option ExecError
unfolding timed_out wait_error
classify ctx_err overflowed event =
    if timed_out event then some timeout else elim (wait_error event) [
      | some e ↦ if ctx_err then some (was_cancelled e) else some e
      | none ↦ if overflowed then some stdout_cap else none
    ]

-- Execute: the error, if any; `started` is the error of cmd.Start.
unfoldable pub execute : List Text → Option Text → Bool → Bool → Event → Option ExecError
unfolding classify
execute [] started ctx_err overflowed event = some empty_command
execute (c ∷ args) (some e) ctx_err overflowed event = some (spawn e)
execute (c ∷ args) none ctx_err overflowed event = classify ctx_err overflowed event

-- What a run without an error is: it was started, its output stayed within the cap, its deadline
-- was not what ended it, and the child itself exited with success.
pub data Succeeds : Option Text → Bool → Event → Type 0 where
  by_itself : Succeeds none false (exited none)
  while_cancelled : Succeeds none false (context_done cancelled none)

execute-none :
    (command : List Text) (started : Option Text) (ctx_err overflowed : Bool) (event : Event)
    → execute command started ctx_err overflowed event ≡ none
    → (command ≢ []) × Succeeds started overflowed event
unfolding execute classify timed_out wait_error
execute-none [] started x o event h = cc
execute-none (c ∷ args) (some e) x o event h = cc
execute-none (c ∷ args) none x false (exited none) h = ((λ e. cc), by_itself)
execute-none (c ∷ args) none x true (exited none) h = cc
execute-none (c ∷ args) none true o (exited (some e)) h = cc
execute-none (c ∷ args) none false o (exited (some e)) h = cc
execute-none (c ∷ args) none x o (context_done deadline_exceeded w) h = cc
execute-none (c ∷ args) none x false (context_done cancelled none) h = ((λ e. cc), while_cancelled)
execute-none (c ∷ args) none x true (context_done cancelled none) h = cc
execute-none (c ∷ args) none true o (context_done cancelled (some e)) h = cc
execute-none (c ∷ args) none false o (context_done cancelled (some e)) h = cc
execute-none (c ∷ args) none true o stdout_exceeded h = cc
execute-none (c ∷ args) none false o stdout_exceeded h = cc

started-none :
    (c : Text) (args : List Text) (ctx_err : Bool) {started : Option Text} {overflowed : Bool}
    {event : Event}
    → Succeeds started overflowed event
    → execute (c ∷ args) started ctx_err overflowed event ≡ none
unfolding execute classify timed_out wait_error
started-none c args x by_itself = refl
started-none c args x while_cancelled = refl

Succeeds-none :
    (command : List Text) (started : Option Text) (ctx_err overflowed : Bool) (event : Event)
    → (command ≢ []) × Succeeds started overflowed event
    → execute command started ctx_err overflowed event ≡ none
Succeeds-none [] started x o event (h, s) = absurd (h refl)
Succeeds-none (c ∷ args) started x o event (h, s) = started-none c args x s

-- Execute reports no error exactly when the command is not empty and the run succeeds: it has
-- started, no output was dropped, and the child exited with success, by itself or in answer to
-- the signal of a shutdown.
pub execute-Succeeds :
    (command : List Text) (started : Option Text) (ctx_err overflowed : Bool) (event : Event)
    → (execute command started ctx_err overflowed event ≡ none)
      ↔ ((command ≢ []) × Succeeds started overflowed event)
execute-Succeeds command started x o event =
    (execute-none command started x o event, Succeeds-none command started x o event)

-- A group that is ended by Execute gets SIGTERM first and SIGKILL last, however its child exits.
signals-kill :
    (event : Event) (graceful : Bool)
    → ((wait : Option Text) × (event ≡ exited wait) × (signals event graceful ≡ []))
      ⊎ ((between : List Signal) × (signals event graceful ≡ sigterm ∷ between ++ sigkill ∷ []))
unfolding signals
signals-kill (exited wait) graceful = inl (wait, refl, refl)
signals-kill (context_done why wait) true = inr ([], refl)
signals-kill (context_done why wait) false = inr (sigkill ∷ [], refl)
signals-kill stdout_exceeded true = inr ([], refl)
signals-kill stdout_exceeded false = inr (sigkill ∷ [], refl)
