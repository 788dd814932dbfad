-- ===== src/Scheduler/State.antt =====
-- internal/scheduler/scheduler.go: the scheduler's state and what it is given.
use sonata.Prelude.{ℕ, Bool, Option, List, [], ◌∷◌, Text, same, if◌then◌else◌}
use sonata.Prelude.Int.{ℤ, pos, ◌+ℤ◌, ltb_ℤ}
use sonata.Store.Types.{Env, Store}
use sonata.Store.Queries.{Work}
use sonata.Workflow.Definition.{Action, SubprocessInstructions}
use sonata.Workflow.Cel.{Cel, Cache}
use sonata.Scheduler.Config.{Config}

-- actionInfo: one decoded current action version.
pub record ActionInfo : Type 0 where
  pub name : Text
  pub version : ℕ
  pub def : Action
  pub subprocess : Option SubprocessInstructions
  pub concurrency : ℤ
  pub max_attempts : ℤ
  pub timeout : ℤ

-- An execution that `launch` has handed to a worker.
pub record Launch : Type 0 where
  pub work : Work
  pub action : ActionInfo

-- What a worker sends back: the captured output, and the error if any.
pub record ExecResult : Type 0 where
  pub stdout : Text
  pub stderr_tail : Text
  pub error : Option Text

-- What stays fixed: the configuration after `withDefaults`, the store's environment, the CEL
-- library, json.Valid, the decoding of stored definitions and of their instructions, and which reads
-- of NextEligible go through: for an action, at a time, after a number of write transactions. The
-- reads of a cancelled context do not.
pub record SchedEnv : Type 0 where
  pub config : Config
  pub store_env : Env
  pub cel : Cel
  pub valid_json : Text → Bool
  pub decode_action : Text → Option Action
  pub decode_instructions : Text → Option SubprocessInstructions
  pub reads : Text → ℕ → ℕ → Bool

-- The map `inflight`: an absent name counts 0.
abbrev pub Inflight : Type 0
Inflight = List (Text × ℤ)

unfoldable pub running_of : Text → Inflight → ℤ
running_of name [] = pos 0
running_of name ((n, k) ∷ rest) =
    let later = running_of name rest in if same n name then k else later

unfoldable pub add_running : Text → ℤ → Inflight → Inflight
unfolding ◌+ℤ◌
add_running name d [] = (name, d) ∷ []
add_running name d ((n, k) ∷ rest) =
    let later = add_running name d rest in
    if same n name then (n, k +ℤ d) ∷ rest else (n, k) ∷ later

-- total.
unfoldable pub total : Inflight → ℤ
unfolding ◌+ℤ◌
total [] = pos 0
total ((n, k) ∷ rest) = k +ℤ total rest

-- The scheduler with its store, and the executions that are under way.
pub record World : Type 0 where
  pub store : Store
  pub active : ℤ
  pub inflight : Inflight
  pub cache : Cache
  pub launched : List Launch

abbrev pub add_active : ℤ → World → World
add_active n w = record w { active = w.active +ℤ n }

-- Busy.
unfoldable pub busy : World → Bool
busy w = ltb_ℤ (pos 0) w.active
