-- ===== src/Examples/Capturing.antt =====
-- The theorems of the executor, of the captured output, and of the ids.
use sonata.Prelude.Spaces.{trim_space, trim_left, trim_right, keep_right, is_space}
use sonata.Prelude.{
  ℕ, ◌≡◌, ◌≢◌, ◌^◌, refl, true, false, none, List, [], ◌∷◌, ◌++◌, Text, codes, all, arith, All, ◌↔◌,
}
use sonata.Store.Id.{IdState, advance, after_calls, new_ids}
use sonata.Store.Id.Order.{Ascending, new_ids-Ascending}
use sonata.Executor.Buffers.{flatten, last_of, write_tails, new_tail_buffer, tail_buffer-last_of}
use sonata.Executor.Outcome.{execute, Succeeds, exited, execute-Succeeds}
use sonata.Scheduler.Ndjson.{newline, split, to_first, line_of, parse_lines, parse_ndjson}
use sonata.Scheduler.Ndjson.Lines.{payloads, Printable, parse_ndjson-payloads}

-- Two calls within a millisecond, and one after the clock has run back.
abbrev calls : List (ℕ × ℕ)
calls = (1000, 7) ∷ (1000, 2 ^ 63) ∷ (900, 5) ∷ []

abbrev at_start : IdState
at_start = record { ms = 0; seq = 0 }

new_ids-Ascending_example : Ascending (new_ids calls at_start)
unfolding after_calls advance
new_ids-Ascending_example = new_ids-Ascending calls at_start (omega arith) (omega arith)

abbrev chunks : List Text
chunks = codes "ab" ∷ codes "cde" ∷ codes "f" ∷ []

tail_buffer-last_of_example :
    (write_tails chunks (new_tail_buffer 4)).buf ≡ last_of 4 (flatten chunks)
tail_buffer-last_of_example = tail_buffer-last_of 4 chunks

execute-Succeeds_example :
    (execute (codes "true" ∷ []) none false false (exited none) ≡ none)
    ↔ (((codes "true" ∷ []) ≢ []) × Succeeds none false (exited none))
execute-Succeeds_example = execute-Succeeds (codes "true" ∷ []) none false false (exited none)

-- Two payloads with a blank line between them.
abbrev output : Text
output = codes "{}" ++ newline ∷ 32 ∷ newline ∷ codes "1"

parse_ndjson-payloads_example :
    ((codes "{}" ∷ codes "1" ∷ []) ≡ payloads (split output))
    × (all (λ t. true) (codes "{}" ∷ codes "1" ∷ []) ≡ true)
unfolding parse_ndjson parse_lines line_of split to_first trim_space trim_left trim_right keep_right
    is_space
parse_ndjson-payloads_example =
    parse_ndjson-payloads (λ t. true) output (codes "{}" ∷ codes "1" ∷ []) refl

two_payloads-Printable : All (Printable (λ t. true)) (codes "{}" ∷ codes "1" ∷ [])
unfolding trim_space trim_left trim_right keep_right is_space
two_payloads-Printable =
    (((λ e. cc), (refl, (refl, tt)), refl, refl), (((λ e. cc), (refl, tt), refl, refl), tt))
