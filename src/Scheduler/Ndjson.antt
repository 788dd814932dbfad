-- ===== src/Scheduler/Ndjson.antt =====
-- internal/scheduler/scheduler.go, parseNDJSON: the output of a task as messages.
-- The output is the list of its characters; `valid` is json.Valid.
pub mod Lines
use sonata.Prelude.Spaces.{trim_space}
use sonata.Prelude.{
  ℕ, suc, Bool, ◌&&◌, ◌||◌, List, [], ◌∷◌, Text, Result, ok, err, ◌>>=◌, ◌==◌, leb, if◌then◌else◌,
}

abbrev pub newline : ℕ
newline = 10

unfoldable pub to_first : ℕ → List Text → List Text
to_first c [] = (c ∷ []) ∷ []
to_first c (line ∷ rest) = (c ∷ line) ∷ rest

-- bytes.Split(stdout, "\n").
unfoldable pub split : Text → List Text
unfolding to_first
split [] = [] ∷ []
split (c ∷ t) = let rest = split t in if c == newline then [] ∷ rest else to_first c rest

unfoldable pub line_of : (Text → Bool) → ℕ → Text → Result ℕ (List Text) → Result ℕ (List Text)
line_of valid i [] rest = rest
line_of valid i (c ∷ line) rest =
    if valid (c ∷ line) then (do ls ← rest; ok ((c ∷ line) ∷ ls)) else err i

-- The loop over the lines, numbered from `i`: the error is the number of the line.
unfoldable pub parse_lines : (Text → Bool) → ℕ → List Text → Result ℕ (List Text)
unfolding line_of trim_space
parse_lines valid i [] = ok []
parse_lines valid i (line ∷ rest) =
    line_of valid i (trim_space line) (parse_lines valid (suc i) rest)

unfoldable pub parse_ndjson : (Text → Bool) → Text → Result ℕ (List Text)
unfolding parse_lines split
parse_ndjson valid stdout = parse_lines valid 1 (split stdout)
