-- ===== src/Workflow/Validate/Valid.antt =====
-- What internal/workflow/validate.go asks of a definition, apart from the order of the checks.
use mathlib.Core.Logic.{◌≢◌}
use sonata.Prelude.{
  ◌≤◌, ◌≡◌, ◌⊎◌, true, false, Option, none, some, List, [], ◌∷◌, Text, length, All, ok,
}
use sonata.Prelude.Int.{ℤ, pos, ltb_ℤ}
use sonata.Prelude.Spaces.{trim_space}
use sonata.Workflow.Definition.{Input, Action, SubprocessInstructions, actor_subprocess, is_join}
use sonata.Workflow.Names.{Matches, name_re, queue_re}
use sonata.Workflow.Cel.{Cel, Compiled, compile}
use sonata.Workflow.Validate.{Instructions, correlates}

-- A queue name other than the output and the queues before it.
unfoldable pub InputOk : Text → List Text → Input → Type 0
InputOk output seen input =
    Matches queue_re input.queue × All (λ queue. input.queue ≢ queue) seen × (input.queue ≢ output)

unfoldable pub InputsOk : Text → List Text → List Input → Type 0
unfolding InputOk
InputsOk output seen [] = Unit
InputsOk output seen (input ∷ rest) =
    InputOk output seen input × InputsOk output (input.queue ∷ seen) rest

-- Unset, or at least one.
unfoldable pub Positive : Option ℤ → Type 0
Positive none = Unit
Positive (some n) = ltb_ℤ n (pos 1) ≡ false

unfoldable pub CommandOk : List Text → Type 0
CommandOk [] = ⊥
CommandOk (executable ∷ args) = trim_space executable ≢ []

unfoldable pub JoinTimeoutOk : Action → Option ℤ → Type 0
JoinTimeoutOk a none = Unit
JoinTimeoutOk a (some t) = (is_join a ≡ true) × (ltb_ℤ t (pos 1) ≡ false)

-- No input correlates, or all of at least two do.
unfoldable pub JoinOk : List Input → Type 0
JoinOk inputs =
    All (λ input. correlates input ≡ false) inputs
    ⊎ ((2 ≤ length inputs) × All (λ input. correlates input ≡ true) inputs)

unfoldable pub InstructionsOk : Instructions → Text → Type 0
unfolding CommandOk Positive
InstructionsOk decode raw =
    (raw ≢ [])
    × (si : SubprocessInstructions) × (decode raw ≡ some (si, false))
    × CommandOk si.command
    × Positive si.timeout

pub record IsValid (cel : Cel) (decode : Instructions) (a : Action) : Type 0 where
  pub name : Matches name_re a.name
  pub actor : a.actor ≡ actor_subprocess
  pub some_input : a.inputs ≢ []
  pub inputs : InputsOk a.output [] a.inputs
  pub join : JoinOk a.inputs
  pub instructions : InstructionsOk decode a.instructions
  pub output : (a.output ≡ []) ⊎ Matches queue_re a.output
  pub concurrency : Positive a.concurrency
  pub max_attempts : Positive a.max_attempts
  pub join_timeout : JoinTimeoutOk a a.join_timeout
  pub compiles : (c : Compiled) × (compile cel a ≡ ok c)
