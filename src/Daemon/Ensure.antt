-- ===== src/Daemon/Ensure.antt =====
-- internal/daemon/ensure.go: EnsureRunning, called by several processes at once, with WaitReady and
-- Stop of spawn.go. A caller is where it stands in the sequence; the start lock, the process that
-- answers on the socket and the callers are what they share. No daemon is started but by the callers,
-- one that is ready runs on, and no caller is killed on its way.
pub mod Phases
pub mod Single
pub mod Sequence
pub mod Settling
use sonata.Prelude.{ℕ, ◌≡◌, ◌≢◌, Bool, true, false, Option, none, some, List, [], ◌∷◌, ◌++◌}

pub data Caller : Type 0 where
  -- Before AcquireWait returns, and when it holds the start lock.
  arriving probing : Caller
  -- It has spawned the process, and waits for it in WaitReady.
  starting : (pid : ℕ) → Caller
  -- EnsureRunning has returned the process, and whether this call has spawned it, or an error.
  returned : (pid : ℕ) (started : Bool) → Caller
  failed : Caller

pub record Startup : Type 0 where
  pub locked : Bool
  -- The process that answers health on the socket.
  pub daemon : Option ℕ
  pub callers : List Caller

-- A step of one caller, with those before and after it.
pub data Step (s : Startup) : Startup → Type 0 where
  -- AcquireWait takes the start lock.
  acquires :
      (before after : List Caller)
      → s.callers ≡ before ++ arriving ∷ after
      → s.locked ≡ false
      → Step s (record s { locked = true; callers = before ++ probing ∷ after })
  -- AcquireWait times out.
  gives_up :
      (before after : List Caller)
      → s.callers ≡ before ++ arriving ∷ after
      → Step s (record s { callers = before ++ failed ∷ after })
  -- The probe of the socket finds a daemon; the lock is released.
  finds :
      (before after : List Caller) (pid : ℕ)
      → s.callers ≡ before ++ probing ∷ after
      → s.daemon ≡ some pid
      → Step s (record s { locked = false; callers = before ++ returned pid false ∷ after })
  -- The probe, the removal of the socket or Spawn fails.
  breaks :
      (before after : List Caller)
      → s.callers ≡ before ++ probing ∷ after
      → Step s (record s { locked = false; callers = before ++ failed ∷ after })
  -- The probe finds none, and Spawn starts a process.
  spawns :
      (before after : List Caller) (pid : ℕ)
      → s.callers ≡ before ++ probing ∷ after
      → s.daemon ≡ none
      → Step s (record s { callers = before ++ starting pid ∷ after })
  -- The process begins to answer.
  serves :
      (before after : List Caller) (pid : ℕ)
      → s.callers ≡ before ++ starting pid ∷ after
      → Step s (record s { daemon = some pid })
  -- WaitReady finds the process that was spawned.
  readies :
      (before after : List Caller) (pid : ℕ)
      → s.callers ≡ before ++ starting pid ∷ after
      → s.daemon ≡ some pid
      → Step s (record s { locked = false; callers = before ++ returned pid true ∷ after })
  -- WaitReady finds another process than the one that was spawned.
  disagrees :
      (before after : List Caller) (pid other : ℕ)
      → s.callers ≡ before ++ starting pid ∷ after
      → s.daemon ≡ some other
      → other ≢ pid
      → Step s (record s { locked = false; callers = before ++ failed ∷ after })
  -- WaitReady times out, and Stop takes the process down.
  stops :
      (before after : List Caller) (pid : ℕ)
      → s.callers ≡ before ++ starting pid ∷ after
      → Step s (record { locked = false; daemon = none; callers = before ++ failed ∷ after })

pub data Reach (s : Startup) : Startup → Type 0 where
  here : Reach s s
  next : {t u : Startup} → Reach s t → Step t u → Reach s u
