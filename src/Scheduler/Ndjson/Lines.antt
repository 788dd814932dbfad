-- ===== src/Scheduler/Ndjson/Lines.antt =====
-- What parseNDJSON accepts, and that it reads back what it is given line by line.
use sonata.Prelude.Spaces.{trim_space}
use sonata.Prelude.{
  ℕ, suc, ◌≡◌, ◌≢◌, refl, sym, ap, ◌∙◌, Bool, true, false, not, List, [], ◌∷◌, ◌++◌, map, Text,
  is_empty, Result, ok, err, ◌==◌, if◌then◌else◌, keep, all, All, Bool-cases, inl, inr,
}
use sonata.Scheduler.Ndjson.{newline, split, line_of, to_first, parse_lines, parse_ndjson}

-- The lines of an output without the blank ones, each trimmed.
abbrev pub payloads : List Text → List Text
payloads ls = keep (λ l. not (is_empty l)) (map trim_space ls)

line_of-ok :
    (valid : Text → Bool) (i : ℕ) (line : Text) (r : Result ℕ (List Text)) (ls : List Text)
    → line_of valid i line r ≡ ok ls
    → (rest : List Text) × (r ≡ ok rest)
      × (ls ≡ (if not (is_empty line) then line ∷ rest else rest))
      × (all valid rest ≡ true → all valid ls ≡ true)
unfolding line_of is_empty
line_of-ok valid i [] r ls h = (ls, h, refl, λ a. a)
line_of-ok valid i (c ∷ line) (ok rest) ls h = elim (Bool-cases (valid (c ∷ line))) [
  | inl e ↦
      let same : (c ∷ line) ∷ rest ≡ ls = cc (rw e at h) in
      (rest, refl, sym same, (λ a. rw (sym same) (rw (e, a) refl)))
  | inr e ↦ absurd (cc (rw e at h))
]
line_of-ok valid i (c ∷ line) (err j) ls h = elim (Bool-cases (valid (c ∷ line))) [
  | inl e ↦ absurd (cc (rw e at h))
  | inr e ↦ absurd (cc (rw e at h))
]

parse_lines-payloads :
    (valid : Text → Bool) (i : ℕ) (lines ls : List Text)
    → parse_lines valid i lines ≡ ok ls
    → (ls ≡ payloads lines) × (all valid ls ≡ true)
unfolding parse_lines
parse_lines-payloads valid i [] ls h = let e : [] ≡ ls = cc h in (sym e, rw (sym e) refl)
parse_lines-payloads valid i (line ∷ lines) ls h =
    let (rest, e, same, good) =
      line_of-ok valid i (trim_space line) (parse_lines valid (suc i) lines) ls h in
    let (p, a) = parse_lines-payloads valid (suc i) lines rest e in
    (same ∙ ap (λ r. if not (is_empty (trim_space line)) then trim_space line ∷ r else r) p, good a)

-- What parseNDJSON returns is the output's lines in order, trimmed and without the blank ones, and
-- each of them is valid JSON.
pub parse_ndjson-payloads :
    (valid : Text → Bool) (stdout : Text) (ls : List Text)
    → parse_ndjson valid stdout ≡ ok ls
    → (ls ≡ payloads (split stdout)) × (all valid ls ≡ true)
unfolding parse_ndjson
parse_ndjson-payloads valid stdout ls h = parse_lines-payloads valid 1 (split stdout) ls h

-- The output that prints some texts, a line each.
abbrev pub print_lines : List Text → Text
print_lines [] = []
print_lines (l ∷ ls) = l ++ newline ∷ print_lines ls

split-line :
    (l rest : Text)
    → All (λ c. (c == newline) ≡ false) l
    → split (l ++ newline ∷ rest) ≡ l ∷ split rest
unfolding split to_first
split-line [] rest h = refl
split-line (c ∷ l) rest (e, h) = rw (e, split-line l rest h) refl

-- A text that a task may print as a line: not empty, no newline within, nothing to trim, and valid.
abbrev pub Printable : (Text → Bool) → Text → Type 0
Printable valid l =
    (l ≢ []) × All (λ c. (c == newline) ≡ false) l × (trim_space l ≡ l) × (valid l ≡ true)

line_of-valid :
    (valid : Text → Bool) (i : ℕ) (l : Text) (ls : List Text)
    → l ≢ []
    → valid l ≡ true
    → line_of valid i l (ok ls) ≡ ok (l ∷ ls)
unfolding line_of
line_of-valid valid i [] ls n v = absurd (n refl)
line_of-valid valid i (c ∷ l) ls n v = rw v refl

parse_lines-print_lines :
    (valid : Text → Bool) (i : ℕ) (ls : List Text)
    → All (Printable valid) ls
    → parse_lines valid i (split (print_lines ls)) ≡ ok ls
unfolding parse_lines split trim_space line_of
parse_lines-print_lines valid i [] h = refl
parse_lines-print_lines valid i (l ∷ ls) ((n, c, t, v), h) =
    rw (split-line l (print_lines ls) c, parse_lines, t, parse_lines-print_lines valid (suc i) ls h)
      (line_of-valid valid i l ls n v)

-- Round trip: the output of a task that prints some valid texts, a line each, is read back as
-- those texts.
pub parse_ndjson-print_lines :
    (valid : Text → Bool) (ls : List Text)
    → All (Printable valid) ls
    → parse_ndjson valid (print_lines ls) ≡ ok ls
unfolding parse_ndjson
parse_ndjson-print_lines valid ls h = parse_lines-print_lines valid 1 ls h
