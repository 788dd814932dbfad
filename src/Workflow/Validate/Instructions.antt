-- ===== src/Workflow/Validate/Instructions.antt =====
-- validateInstructions of internal/workflow/validate.go beside what it asks of the block.
use mathlib.Core.Logic.{◌↔◌}
use sonata.Prelude.{
  bind-ok, then_iff, is_empty-false, ◌≡◌, refl, Bool, true, false, Option, none, some, List, [],
  ◌∷◌, Text, same_refl, is_empty, arith, ok, ◌>>◌,
}
use sonata.Prelude.Int.{ℤ, pos}
use sonata.Prelude.Spaces.{trim_space}
use sonata.Workflow.Definition.{Action, SubprocessInstructions, actor_subprocess}
use sonata.Workflow.Validate.{
  Instructions, InvalidAction, DecodeError, bad_instructions, bad_timeout, instructions_required,
  invalid_if, wrapped, strict_unmarshal, check_command, decode_subprocess, validate_instructions,
  set_below,
}
use sonata.Workflow.Validate.Valid.{Positive, CommandOk, InstructionsOk}

pub invalid_if-ok : (b : Bool) (x : InvalidAction) → (invalid_if b x ≡ ok tt) ↔ (b ≡ false)
invalid_if-ok b x = ground arith

pub set_below-Positive : (n : Option ℤ) → (set_below n (pos 1) ≡ false) ↔ Positive n
unfolding Positive
set_below-Positive none = ((λ e. tt), (λ e. refl))
set_below-Positive (some n) = ((λ e. e), (λ e. e))

check_command-ok : (command : List Text) → (check_command command ≡ ok tt) ↔ CommandOk command
unfolding check_command CommandOk
check_command-ok [] = ((λ e. cc e), (λ e. absurd e))
check_command-ok (executable ∷ args) =
    let h = is_empty-false (trim_space executable) in
    ((λ e. h.0 (ground arith)), (λ k. rw (h.1 k) refl))

pub strict_unmarshal-ok {ℓ} :
    {A : Type ℓ} (f : DecodeError → InvalidAction) (o : Option (A × Bool)) (a : A)
    → (wrapped f (strict_unmarshal o) ≡ ok a) ↔ (o ≡ some (a, false))
unfolding strict_unmarshal
strict_unmarshal-ok f none a = ((λ e. cc e), (λ e. cc e))
strict_unmarshal-ok f (some (x, true)) a = ((λ e. cc e), (λ e. cc e))
strict_unmarshal-ok f (some (x, false)) a = ((λ e. cc e), (λ e. cc e))

decode_subprocess-ok :
    (decode : Instructions) (raw : Text) (si : SubprocessInstructions)
    → (wrapped bad_instructions (decode_subprocess decode raw) ≡ ok si)
      ↔ (decode raw ≡ some (si, false))
unfolding decode_subprocess
decode_subprocess-ok decode raw si = strict_unmarshal-ok bad_instructions (decode raw) si

-- The two checks of a decoded block.
decoded-ok :
    (si : SubprocessInstructions)
    → ((check_command si.command >> invalid_if (set_below si.timeout (pos 1)) bad_timeout) ≡ ok tt)
      ↔ (CommandOk si.command × Positive si.timeout)
decoded-ok si =
    let split =
      then_iff (check_command si.command) (invalid_if (set_below si.timeout (pos 1)) bad_timeout)
        tt in
    let limit = invalid_if-ok (set_below si.timeout (pos 1)) bad_timeout in
    let command = check_command-ok si.command in
    let timeout = set_below-Positive si.timeout in
    (
      (λ e. (command.0 (split.0 e).0, timeout.0 (limit.0 (split.0 e).1))),
      (λ (c, t). split.1 (command.1 c, limit.1 (timeout.1 t))),
    )

pub validate_instructions-ok :
    (decode : Instructions) (a : Action)
    → a.actor ≡ actor_subprocess
    → (validate_instructions decode a ≡ ok tt) ↔ InstructionsOk decode a.instructions
unfolding validate_instructions InstructionsOk
validate_instructions-ok decode a e =
    let full = is_empty-false a.instructions in
    (
      (λ h.
          let (u, n, rest) =
            bind-ok (invalid_if (is_empty a.instructions) instructions_required) _ tt
              ((rw (e, same_refl actor_subprocess) at h)) in
          let (si, d, checks) =
            bind-ok (wrapped bad_instructions (decode_subprocess decode a.instructions)) _ tt
              rest in
          (
            full.0 ((invalid_if-ok _ instructions_required).0 n),
            si,
            (decode_subprocess-ok decode a.instructions si).0 d,
            ((decoded-ok si).0 checks).0,
            ((decoded-ok si).0 checks).1,
          )),
      (λ (k, si, d, c, t).
          rw
            (
              e,
              same_refl actor_subprocess,
              full.1 k,
              (decode_subprocess-ok decode a.instructions si).1 d,
              (decoded-ok si).1 (c, t),
            )
            refl),
    )
