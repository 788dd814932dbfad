-- ===== src/Workflow/Validate/Accepting.antt =====
-- validate of internal/workflow beside what it asks of a definition.
use mathlib.Core.Logic.{◌↔◌}
use sonata.Workflow.Validate.Instructions.{
  invalid_if-ok, set_below-Positive, validate_instructions-ok,
}
use sonata.Workflow.Validate.Inputs.{validate_inputs-ok, match_string-not_empty}
use mathlib.Core.Path.{subst, sym}
use sonata.Prelude.{
  Result-cases, then_iff, ◌≡◌, refl, ◌⊎◌, inl, inr, false, not, ◌&&◌, Option, none, some, List, [],
  ◌∷◌, Text, same, same→eq, same_refl, is_empty, All, arith, ok, ◌>>◌,
}
use sonata.Prelude.Int.{ℤ}
use sonata.Workflow.Definition.{Input, Action, actor_subprocess, is_join, first_correlates}
use sonata.Workflow.Names.{
  Matches, name_re, queue_re, name_matches, queue_matches, match_string-Matches, alphanumeric,
  name_char, queue_char,
}
use sonata.Workflow.Cel.{Cel, Compiled, compile}
use sonata.Workflow.Validate.{
  Instructions, name_required, bad_name, actor_required, unknown_actor, bad_output, bad_concurrency,
  bad_max_attempts, correlates, invalid_if, validate_inputs, validate_instructions,
  check_join_timeout, check_compiles, validate,
}
use sonata.Workflow.Validate.Valid.{JoinTimeoutOk, JoinOk, IsValid}

check_join_timeout-ok :
    (a : Action) (t : Option ℤ) → (check_join_timeout a t ≡ ok tt) ↔ JoinTimeoutOk a t
unfolding check_join_timeout JoinTimeoutOk
check_join_timeout-ok a none = ((λ e. tt), (λ e. refl))
check_join_timeout-ok a (some t) = ((λ e. (ground arith, ground arith)), (λ (j, p). rw (j, p) refl))

check_compiles-ok :
    (cel : Cel) (a : Action)
    → (check_compiles cel a ≡ ok tt) ↔ ((c : Compiled) × (compile cel a ≡ ok c))
unfolding check_compiles
check_compiles-ok cel a = (
  (λ e. elim (Result-cases (compile cel a)) [
    | inl (c, f) ↦ (c, f)
    | inr (x, f) ↦ cc ((rw f at e))
  ]),
  (λ (c, e). rw e refl),
)

output_false :
    (output : Text)
    → ((not (is_empty output) && not (queue_matches output)) ≡ false)
      ↔ ((output ≡ []) ⊎ Matches queue_re output)
unfolding is_empty
output_false [] = ((λ e. inl refl), (λ h. refl))
output_false (c ∷ s) =
    let matching = match_string-Matches alphanumeric queue_char (c ∷ s) in
    (
      (λ e. inr (matching.0 (ground arith))),
      (λ h. elim h [ inl e ↦ cc e | inr m ↦ rw (matching.1 m) refl ]),
    )

-- The checks before validateInputs.
names-ok :
    (a : Action)
    → ((invalid_if (is_empty a.name) name_required
          >> invalid_if (not (name_matches a.name)) bad_name
          >> invalid_if (is_empty a.actor) actor_required
          >> invalid_if (not (same a.actor actor_subprocess)) unknown_actor)
        ≡ ok tt)
      ↔ (Matches name_re a.name × (a.actor ≡ actor_subprocess))
unfolding is_empty
names-ok a =
    let matching = match_string-Matches alphanumeric name_char a.name in
    let full = match_string-not_empty alphanumeric name_char a.name in
    let known = same→eq a.actor actor_subprocess in
    (
      (λ e. (matching.0 (ground arith), known (ground arith))),
      (λ (m, e). rw (full (matching.1 m), matching.1 m, e, same_refl actor_subprocess) refl),
    )

-- Validate accepts a definition exactly when it is valid.
pub validate-IsValid :
    (cel : Cel) (decode : Instructions) (a : Action)
    → (validate cel decode a ≡ ok tt) ↔ IsValid cel decode a
unfolding validate
validate-IsValid cel decode a =
    let output = output_false a.output in
    let concurrency = set_below-Positive a.concurrency in
    let attempts = set_below-Positive a.max_attempts in
    let timeout = check_join_timeout-ok a a.join_timeout in
    let compiles = check_compiles-ok cel a in
    (
      (λ e.
          let (e10, c) = (then_iff _ (check_compiles cel a) tt).0 e in
          let (e9, j) = (then_iff _ (check_join_timeout a a.join_timeout) tt).0 e10 in
          let (e8, m) = (then_iff _ (invalid_if _ bad_max_attempts) tt).0 e9 in
          let (e7, n) = (then_iff _ (invalid_if _ bad_concurrency) tt).0 e8 in
          let (e6, o) = (then_iff _ (invalid_if _ bad_output) tt).0 e7 in
          let (e5, i) = (then_iff _ (validate_instructions decode a) tt).0 e6 in
          let (e4, q) = (then_iff _ (validate_inputs a) tt).0 e5 in
          let names = (names-ok a).0 e4 in
          let inputs = (validate_inputs-ok a).0 q in
          record {
            name = names.0;
            actor = names.1;
            some_input = inputs.0;
            inputs = inputs.1;
            join = inputs.2;
            instructions = (validate_instructions-ok decode a names.1).0 i;
            output = output.0 ((invalid_if-ok _ bad_output).0 o);
            concurrency = concurrency.0 ((invalid_if-ok _ bad_concurrency).0 n);
            max_attempts = attempts.0 ((invalid_if-ok _ bad_max_attempts).0 m);
            join_timeout = timeout.0 j;
            compiles = compiles.0 c;
          }),
      (λ v.
          rw
            (
              (names-ok a).1 (v.name, v.actor),
              (validate_inputs-ok a).1 (v.some_input, v.inputs, v.join),
              (validate_instructions-ok decode a v.actor).1 v.instructions,
              output.1 v.output,
              concurrency.1 v.concurrency,
              attempts.1 v.max_attempts,
              timeout.1 v.join_timeout,
              compiles.1 v.compiles,
            )
            refl),
    )

first_decides :
    (inputs : List Input)
    → JoinOk inputs
    → All (λ input. correlates input ≡ first_correlates inputs) inputs
unfolding JoinOk first_correlates
first_decides [] j = tt
first_decides (input ∷ inputs) (inl h) =
    subst (λ b. All (λ other. correlates other ≡ b) (input ∷ inputs)) (sym h.0) h
first_decides (input ∷ inputs) (inr (l, h)) =
    subst (λ b. All (λ other. correlates other ≡ b) (input ∷ inputs)) (sym h.0) h

-- Where Validate accepts a definition, its first input decides for all: an input correlates exactly
-- when IsJoin says true.
pub validate-is_join :
    (cel : Cel) (decode : Instructions) (a : Action)
    → validate cel decode a ≡ ok tt
    → All (λ input. correlates input ≡ is_join a) a.inputs
unfolding is_join
validate-is_join cel decode a e = first_decides a.inputs ((validate-IsValid cel decode a).0 e).join
