-- ===== src/Workflow/Validate/Inputs.antt =====
-- validateInputs of internal/workflow/validate.go beside what it asks of the inputs.
use mathlib.Core.Logic.{◌≢◌, ◌↔◌}
use sonata.Workflow.Validate.Instructions.{invalid_if-ok}
use sonata.Prelude.{
  bind-ok, same-false, fresh_text, none_counted, every_counted, ℕ, ◌≤◌, ◌≡◌, refl, ◌⊎◌, inl, inr,
  Bool, true, false, not, ◌&&◌, List, [], ◌∷◌, Text, length, count, same, is_empty, arith, ok,
}
use sonata.Workflow.Definition.{Input, Action}
use sonata.Workflow.Names.{
  queue_matches, match_string, match_string-Matches, alphanumeric, queue_char,
}
use sonata.Workflow.Validate.{
  inputs_required, correlates, invalid_if, check_input, check_inputs, check_join, validate_inputs,
  is_nil,
}
use sonata.Workflow.Validate.Valid.{InputOk, InputsOk, JoinOk}

pub match_string-not_empty :
    (ends inner : ℕ → Bool) (s : Text) → match_string ends inner s ≡ true → is_empty s ≡ false
unfolding match_string is_empty
match_string-not_empty ends inner [] h = cc h
match_string-not_empty ends inner (c ∷ s) h = refl

self_loop_false :
    (q output : Text)
    → is_empty q ≡ false
    → ((not (is_empty output) && same q output) ≡ false) ↔ (q ≢ output)
unfolding is_empty
self_loop_false q [] e = ((λ h f. cc (e, f)), (λ k. refl))
self_loop_false q (c ∷ output) e = same-false q (c ∷ output)

check_input-ok :
    (output : Text) (seen : List Text) (input : Input)
    → (check_input output seen input ≡ ok tt) ↔ InputOk output seen input
unfolding check_input InputOk
check_input-ok output seen input =
    let q = input.queue in
    let matching = match_string-Matches alphanumeric queue_char q in
    let fresh = fresh_text q seen in
    let full = match_string-not_empty alphanumeric queue_char q in
    let apart = self_loop_false q output in
    (
      (λ h.
          let m : queue_matches q ≡ true = ground arith in
          (matching.0 m, fresh.0 (ground arith), (apart (full m)).0 (ground arith))),
      (λ (m, f, l). let e = matching.1 m in rw (full e, e, fresh.1 f, (apart (full e)).1 l) refl),
    )

check_inputs-ok :
    (output : Text) (seen : List Text) (inputs : List Input)
    → InputsOk output seen inputs
    → check_inputs output seen inputs ≡ ok (count correlates inputs)
unfolding check_inputs InputsOk
check_inputs-ok output seen [] h = refl
check_inputs-ok output seen (input ∷ rest) (h, hs) =
    rw ((check_input-ok output seen input).1 h, check_inputs-ok output (input.queue ∷ seen) rest hs)
      refl

check_inputs-InputsOk :
    (output : Text) (seen : List Text) (inputs : List Input) (n : ℕ)
    → check_inputs output seen inputs ≡ ok n
    → InputsOk output seen inputs
unfolding check_inputs InputsOk
check_inputs-InputsOk output seen [] n e = tt
check_inputs-InputsOk output seen (input ∷ rest) n e =
    let (u, here, e') = bind-ok (check_input output seen input) _ n e in
    let (m, later, e'') = bind-ok (check_inputs output (input.queue ∷ seen) rest) _ n e' in
    (
      (check_input-ok output seen input).0 here,
      check_inputs-InputsOk output (input.queue ∷ seen) rest m later,
    )

check_join_numbers : (n m : ℕ) → (check_join n m ≡ ok tt) ↔ ((n ≡ 0) ⊎ ((2 ≤ m) × (n ≡ m)))
unfolding check_join
check_join_numbers n m = ground arith

check_join-ok :
    (inputs : List Input)
    → (check_join (count correlates inputs) (length inputs) ≡ ok tt) ↔ JoinOk inputs
unfolding JoinOk
check_join-ok inputs =
    let none_of = none_counted correlates inputs in
    let all_of = every_counted correlates inputs in
    let numbers = check_join_numbers (count correlates inputs) (length inputs) in
    (
      (λ e. elim (numbers.0 e) [ inl z ↦ inl (none_of.0 z) | inr (l, f) ↦ inr (l, all_of.0 f) ]),
      (λ j. numbers.1 (elim j [ inl z ↦ inl (none_of.1 z) | inr (l, f) ↦ inr (l, all_of.1 f) ])),
    )

is_nil-false {ℓ} : {A : Type ℓ} (xs : List A) → (is_nil xs ≡ false) ↔ (xs ≢ [])
is_nil-false [] = ((λ e. cc e), (λ k. absurd (k refl)))
is_nil-false (x ∷ xs) = ((λ e f. cc f), (λ k. refl))

pub validate_inputs-ok :
    (a : Action)
    → (validate_inputs a ≡ ok tt)
      ↔ ((a.inputs ≢ []) × InputsOk a.output [] a.inputs × JoinOk a.inputs)
unfolding validate_inputs
validate_inputs-ok a =
    let full = is_nil-false a.inputs in
    (
      (λ e.
          let (u, n, rest) = bind-ok (invalid_if (is_nil a.inputs) inputs_required) _ tt e in
          let (m, i, j) = bind-ok (check_inputs a.output [] a.inputs) _ tt rest in
          let inputs = check_inputs-InputsOk a.output [] a.inputs m i in
          let same_count : m ≡ count correlates a.inputs =
            cc (i, check_inputs-ok a.output [] a.inputs inputs) in
          (
            full.0 ((invalid_if-ok _ inputs_required).0 n),
            inputs,
            (check_join-ok a.inputs).0 ((rw same_count at j)),
          )),
      (λ (k, i, j).
          rw (full.1 k, check_inputs-ok a.output [] a.inputs i, (check_join-ok a.inputs).1 j) refl),
    )
