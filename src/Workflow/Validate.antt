-- ===== src/Workflow/Validate.antt =====
-- internal/workflow/validate.go and strictUnmarshal of action.go: the checks of a decoded
-- definition, in the source's order, with one error for each message.
-- The JSON decoder is a parameter: it answers the decoded value, with whether more content follows.
pub mod Valid
pub mod Inputs
pub mod Instructions
pub mod Accepting
use sonata.Prelude.{
  ℕ, suc, Bool, true, false, not, ◌&&◌, Option, none, some, List, [], ◌∷◌, Text, length, any, same,
  is_empty, ltb, ◌==◌, if◌then◌else◌, Result, ok, err, ◌>>=◌, ◌>>◌,
}
use sonata.Prelude.Int.{ℤ, pos, ltb_ℤ}
use sonata.Prelude.Spaces.{trim_space}
use sonata.Workflow.Definition.{Input, Action, SubprocessInstructions, actor_subprocess, is_join}
use sonata.Workflow.Names.{name_matches, queue_matches}
use sonata.Workflow.Cel.{Cel, CompileError, Compiled, compile}

pub data DecodeError : Type 0 where
  malformed trailing_content : DecodeError

-- ErrInvalidAction with its specifics.
pub data InvalidAction : Type 0 where
  undecodable : DecodeError → InvalidAction
  bad_document empty_document : InvalidAction
  name_required bad_name actor_required unknown_actor : InvalidAction
  inputs_required queue_required bad_queue duplicate_queue self_loop : InvalidAction
  partial_join lone_join : InvalidAction
  instructions_required : InvalidAction
  bad_instructions : DecodeError → InvalidAction
  command_required blank_command bad_timeout : InvalidAction
  bad_output bad_concurrency bad_max_attempts : InvalidAction
  join_timeout_without_join bad_join_timeout : InvalidAction
  uncompilable : CompileError → InvalidAction

unfoldable pub strict_unmarshal {ℓ} : {A : Type ℓ} → Option (A × Bool) → Result DecodeError A
strict_unmarshal none = err malformed
strict_unmarshal (some (a, true)) = err trailing_content
strict_unmarshal (some (a, false)) = ok a

-- An `if` that returns an error.
abbrev pub invalid_if : Bool → InvalidAction → Result InvalidAction (Unit {0})
invalid_if b e = if b then err e else ok tt

-- A failed call whose error is wrapped.
abbrev pub wrapped {ℓ κ} :
    {E : Type κ} {A : Type ℓ} → (E → InvalidAction) → Result E A → Result InvalidAction A
wrapped f (ok a) = ok a
wrapped f (err e) = err (f e)

abbrev pub is_nil {ℓ} : {A : Type ℓ} → List A → Bool
is_nil [] = true
is_nil (x ∷ xs) = false

-- The body of the loop of validateInputs, before it counts.
unfoldable pub check_input : Text → List Text → Input → Result InvalidAction (Unit {0})
check_input output seen input =
    invalid_if (is_empty input.queue) queue_required
    >> invalid_if (not (queue_matches input.queue)) bad_queue
    >> invalid_if (any (same input.queue) seen) duplicate_queue
    >> invalid_if (not (is_empty output) && same input.queue output) self_loop

abbrev pub correlates : Input → Bool
correlates input = not (is_empty input.correlate_on)

-- The loop of validateInputs: how many inputs correlate.
unfoldable pub check_inputs : Text → List Text → List Input → Result InvalidAction ℕ
unfolding check_input
check_inputs output seen [] = ok 0
check_inputs output seen (input ∷ rest) =
    let later = check_inputs output (input.queue ∷ seen) rest in
    do check_input output seen input; n ← later; ok (if correlates input then suc n else n)

unfoldable pub check_join : ℕ → ℕ → Result InvalidAction (Unit {0})
check_join correlated inputs =
    invalid_if (ltb 0 correlated && not (correlated == inputs)) partial_join
    >> invalid_if (ltb 0 correlated && ltb inputs 2) lone_join

unfoldable pub validate_inputs : Action → Result InvalidAction (Unit {0})
unfolding check_inputs check_join
validate_inputs a =
    invalid_if (is_nil a.inputs) inputs_required
    >> (do correlated ← check_inputs a.output [] a.inputs; check_join correlated (length a.inputs))

-- A duration or a number that is set and below a bound.
abbrev pub set_below : Option ℤ → ℤ → Bool
set_below none bound = false
set_below (some n) bound = ltb_ℤ n bound

unfoldable pub check_command : List Text → Result InvalidAction (Unit {0})
check_command [] = err command_required
check_command (executable ∷ args) = invalid_if (is_empty (trim_space executable)) blank_command

-- The decoder of an instructions block.
abbrev pub Instructions : Type 0
Instructions = Text → Option (SubprocessInstructions × Bool)

unfoldable pub decode_subprocess : Instructions → Text → Result DecodeError SubprocessInstructions
unfolding strict_unmarshal
decode_subprocess decode raw = strict_unmarshal (decode raw)

unfoldable pub validate_instructions : Instructions → Action → Result InvalidAction (Unit {0})
unfolding decode_subprocess check_command
validate_instructions decode a =
    if same a.actor actor_subprocess
    then (invalid_if (is_empty a.instructions) instructions_required >> (do
      si ← wrapped bad_instructions (decode_subprocess decode a.instructions)
      check_command si.command
      invalid_if (set_below si.timeout (pos 1)) bad_timeout))
    else ok tt

unfoldable pub check_join_timeout : Action → Option ℤ → Result InvalidAction (Unit {0})
check_join_timeout a none = ok tt
check_join_timeout a (some t) =
    invalid_if (not (is_join a)) join_timeout_without_join
    >> invalid_if (ltb_ℤ t (pos 1)) bad_join_timeout

unfoldable pub check_compiles : Cel → Action → Result InvalidAction (Unit {0})
check_compiles cel a = wrapped uncompilable (compile cel a) >>= λ c. ok tt

unfoldable pub validate : Cel → Instructions → Action → Result InvalidAction (Unit {0})
unfolding validate_inputs validate_instructions check_join_timeout check_compiles
validate cel decode a =
    invalid_if (is_empty a.name) name_required
    >> invalid_if (not (name_matches a.name)) bad_name
    >> invalid_if (is_empty a.actor) actor_required
    >> invalid_if (not (same a.actor actor_subprocess)) unknown_actor
    >> validate_inputs a
    >> validate_instructions decode a
    >> invalid_if (not (is_empty a.output) && not (queue_matches a.output)) bad_output
    >> invalid_if (set_below a.concurrency (pos 1)) bad_concurrency
    >> invalid_if (set_below a.max_attempts (pos 1)) bad_max_attempts
    >> check_join_timeout a a.join_timeout
    >> check_compiles cel a
