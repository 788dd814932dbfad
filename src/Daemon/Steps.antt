-- ===== src/Daemon/Steps.antt =====
-- The daemon as a system of steps: the scheduler's goroutine, the workers and the request handlers,
-- interleaved. A handler's transaction and its later WorkAdded are two steps, since the scheduler
-- may run between them. A write is one step: the writer has a single connection.

use sonata.Prelude.{ℕ, ◌+◌, ◌≡◌, Bool, Option, some, List, [], ◌∷◌, ◌++◌, Text}
use sonata.Store.Types.{Store}
use sonata.Store.Deliveries.{set_delivery_pgid}
use sonata.Store.Actions.{apply_action}
use sonata.Scheduler.State.{Launch, ExecResult, SchedEnv, World}
use sonata.Scheduler.Dispatch.{dispatch}
use sonata.Scheduler.Apply.{apply, handle_ctrl, work_added}
use sonata.Api.{Handled, SendMessageRequest, message_send, delivery_replay, enable_action}

-- The scheduler with the announcements that handlers have still to make.
pub record Daemon : Type 0 where
  pub world : World
  pub owed : List ℕ

abbrev pub sum : List ℕ → ℕ
sum [] = 0
sum (n ∷ ns) = n + sum ns

abbrev pub with_store : Store → World → World
with_store s w = record w { store = s }

-- What a handler's transaction leaves.
abbrev pub handled : {A : Type 0} → Handled A → Daemon → Daemon
handled h d = record { world = with_store h.store d.world; owed = h.announce ∷ d.owed }

pub data Step (env : SchedEnv) (d : Daemon) : Daemon → Type 0 where
  -- The loop of Run: dispatch at a time, with enough fuel to finish.
  dispatching :
      (now fuel : ℕ) (w : World)
      → dispatch env now fuel d.world ≡ some w
      → Step env d (record d { world = w })
  -- The loop of Run: the outcome of an execution.
  applying :
      (r : Launch) (res : ExecResult) (now jitter : ℕ)
      → Step env d (record d { world = apply env r res now jitter d.world })
  -- The loop of Run: a disabled action's deliveries.
  cancelling :
      (action : Text) (now : ℕ)
      → Step env d (record d { world = (handle_ctrl env action now d.world).1 })
  -- A worker persists its process group.
  starting :
      (id pgid : ℕ)
      → Step env d (record d {
        world = with_store (set_delivery_pgid env.store_env id pgid d.world.store).1 d.world;
      })
  -- message.send.
  sending :
      (req : SendMessageRequest) (now : ℕ)
      → Step env d (handled (message_send env.store_env env.valid_json req now d.world.store) d)
  -- delivery.replay.
  replaying :
      (id : Option ℕ) → Step env d (handled (delivery_replay env.store_env id d.world.store) d)
  -- A handler calls WorkAdded.
  announcing :
      (before : List ℕ) (n : ℕ) (after : List ℕ)
      → d.owed ≡ before ++ n ∷ after
      → Step env d (record { world = work_added n d.world; owed = before ++ after })
  -- action.apply and action.enable write the actions table alone.
  registering :
      (name definition : Text) (now : ℕ)
      → Step env d (record d {
        world = with_store (apply_action env.store_env name definition now d.world.store).1 d.world;
      })
  enabling :
      (name : Text) (enabled : Bool)
      → Step env d (record d {
        world = with_store (enable_action env.store_env name enabled d.world.store).1 d.world;
      })

pub data Reach (env : SchedEnv) (d : Daemon) : Daemon → Type 0 where
  here : Reach env d d
  next : {e f : Daemon} → Reach env d e → Step env e f → Reach env d f
