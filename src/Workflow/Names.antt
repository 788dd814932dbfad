-- ===== src/Workflow/Names.antt =====
-- internal/workflow/validate.go: the two regular expressions of the names, and the texts that
-- they match.
-- A regular expression is a value, as in the source; what it matches is defined by its parts.
use mathlib.Core.Logic.{◌↔◌}
use sonata.Prelude.{
  ℕ, ◌≡◌, refl, ap, ◌⊎◌, inl, inr, Bool, true, false, ◌&&◌, ◌||◌, leb, ◌==◌, List, [], ◌∷◌, ◌++◌,
  Text, All, and_true,
}

pub data Regex : Type 0 where
  one_of : (ℕ → Bool) → Regex
  optional : Regex → Regex
  many : Regex → Regex
  followed_by : Regex → Regex → Regex

abbrev pub joined : List Text → Text
joined [] = []
joined (s ∷ rest) = s ++ joined rest

-- The texts that an expression matches from end to end.
unfoldable pub Matches : Regex → Text → Type 0
Matches (one_of p) s = (c : ℕ) × (s ≡ c ∷ []) × (p c ≡ true)
Matches (optional r) s = (s ≡ []) ⊎ Matches r s
Matches (many r) s = (parts : List Text) × (s ≡ joined parts) × All (Matches r) parts
Matches (followed_by r q) s = (t : Text) × (u : Text) × (s ≡ t ++ u) × Matches r t × Matches q u

-- [a-z0-9], [a-z0-9-] and [a-z0-9.-].
abbrev pub alphanumeric : ℕ → Bool
alphanumeric c = (leb 97 c && leb c 122) || (leb 48 c && leb c 57)

abbrev pub name_char : ℕ → Bool
name_char c = alphanumeric c || c == 45

abbrev pub queue_char : ℕ → Bool
queue_char c = alphanumeric c || c == 46 || c == 45

abbrev pub bounded_by : (ℕ → Bool) → (ℕ → Bool) → Regex
bounded_by ends inner =
    followed_by (one_of ends) (optional (followed_by (many (one_of inner)) (one_of ends)))

abbrev pub name_re : Regex
name_re = bounded_by alphanumeric name_char

abbrev pub queue_re : Regex
queue_re = bounded_by alphanumeric queue_char

-- What follows the first character: nothing, or inner characters and a last one.
unfoldable pub rest_matches : (ℕ → Bool) → (ℕ → Bool) → Text → Bool
rest_matches ends inner [] = true
rest_matches ends inner (c ∷ []) = ends c
rest_matches ends inner (c ∷ d ∷ s) = inner c && rest_matches ends inner (d ∷ s)

-- MatchString of an expression of that form.
unfoldable pub match_string : (ℕ → Bool) → (ℕ → Bool) → Text → Bool
unfolding rest_matches
match_string ends inner [] = false
match_string ends inner (c ∷ s) = ends c && rest_matches ends inner s

abbrev pub name_matches : Text → Bool
name_matches = match_string alphanumeric name_char

abbrev pub queue_matches : Text → Bool
queue_matches = match_string alphanumeric queue_char

module _ (ends inner : ℕ → Bool) where
  -- Inner characters and a last one.
  rest_matches-append :
      (s : Text) (c : ℕ)
      → All (λ d. inner d ≡ true) s
      → ends c ≡ true
      → rest_matches ends inner (s ++ c ∷ []) ≡ true
  unfolding rest_matches
  rest_matches-append [] c h e = e
  rest_matches-append (d ∷ []) c h e = rw (h.0, e) refl
  rest_matches-append (d ∷ d' ∷ s) c h e = rw (h.0, rest_matches-append (d' ∷ s) c h.1 e) refl

  last_apart :
      (c : ℕ) (s : Text)
      → rest_matches ends inner (c ∷ s) ≡ true
      → (t : Text) × (d : ℕ) × (c ∷ s ≡ t ++ d ∷ []) × All (λ x. inner x ≡ true) t × (ends d ≡ true)
  unfolding rest_matches
  last_apart c [] h = ([], c, refl, tt, h)
  last_apart c (d ∷ s) h =
      let both = and_true (inner c) (rest_matches ends inner (d ∷ s)) h in
      let (t, x, e, is, l) = last_apart d s both.1 in (c ∷ t, x, ap (λ u. c ∷ u) e, (both.0, is), l)

  inner_chars :
      (parts : List Text)
      → All (Matches (one_of inner)) parts
      → All (λ x. inner x ≡ true) (joined parts)
  unfolding Matches
  inner_chars [] h = tt
  inner_chars (s ∷ parts) ((c, e, p), h) = rw e (p, inner_chars parts h)

  singles : Text → List Text
  singles [] = []
  singles (c ∷ s) = (c ∷ []) ∷ singles s

  joined-singles : (s : Text) → s ≡ joined (singles s)
  unfolding singles
  joined-singles [] = refl
  joined-singles (c ∷ s) = ap (λ t. c ∷ t) (joined-singles s)

  each_single : (s : Text) → All (λ x. inner x ≡ true) s → All (Matches (one_of inner)) (singles s)
  unfolding Matches singles
  each_single [] h = tt
  each_single (c ∷ s) (p, h) = ((c, refl, p), each_single s h)

  rest_matches-Matches :
      (s : Text)
      → rest_matches ends inner s ≡ true
      → Matches (optional (followed_by (many (one_of inner)) (one_of ends))) s
  unfolding Matches
  rest_matches-Matches [] h = inl refl
  rest_matches-Matches (c ∷ s) h =
      let (t, d, e, is, l) = last_apart c s h in
      inr (t, d ∷ [], e, (singles t, joined-singles t, each_single t is), (d, refl, l))

  Matches-rest_matches :
      (s : Text)
      → Matches (optional (followed_by (many (one_of inner)) (one_of ends))) s
      → rest_matches ends inner s ≡ true
  unfolding Matches rest_matches
  Matches-rest_matches s (inl e) = rw e refl
  Matches-rest_matches s (inr (t, u, e, (parts, e', h), (d, e'', l))) =
      rw (e, e', e'') (rest_matches-append (joined parts) d (inner_chars parts h) l)

  pub match_string-Matches :
      (s : Text) → (match_string ends inner s ≡ true) ↔ Matches (bounded_by ends inner) s
  unfolding match_string Matches
  match_string-Matches s = (there s, back s)
    where
      there : (s : Text) → match_string ends inner s ≡ true → Matches (bounded_by ends inner) s
      there [] h = cc
      there (c ∷ s) h =
          let both = and_true (ends c) (rest_matches ends inner s) h in
          (c ∷ [], s, refl, (c, refl, both.0), rest_matches-Matches s both.1)

      back : (s : Text) → Matches (bounded_by ends inner) s → match_string ends inner s ≡ true
      back s (t, u, e, (c, e', p), m) = rw (e, e', p) (Matches-rest_matches u m)
