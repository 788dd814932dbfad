-- ===== src/Store/Timestamp.antt =====
-- The text form of a time that the store persists, `Format(time.RFC3339Nano)`, and the order in
-- which SQLite compares such texts (NextEligible and NextRetryAt of internal/store/deliveries.go).
-- The date and the time of day have a fixed width, so two texts compare first as the whole seconds
-- (of the years 0 to 9999). RFC3339Nano then drops the trailing zeros of the fraction, and the
-- fraction itself where it is zero; in UTC the text ends with `Z`.
pub mod Order
use sonata.Prelude.{
  ℕ, ◌+◌, ◌/◌, ◌%◌, Bool, not, List, [], ◌∷◌, ◌++◌, Text, text_ltb, ◌==◌, ltb, if◌then◌else◌,
}
use sonata.Prelude.Digits.{fixed}

abbrev pub second : ℕ
second = 1000000000

abbrev pub decimal : ℕ → ℕ
decimal c = b'0' + c

with_digit : ℕ → Text → Text
with_digit c [] = if c == b'0' then [] else c ∷ []
with_digit c (d ∷ ds) = c ∷ d ∷ ds

-- The digits without their trailing zeros.
trim_zeros : Text → Text
unfolding with_digit
trim_zeros [] = []
trim_zeros (c ∷ cs) = with_digit c (trim_zeros cs)

zone : Text → Text
zone [] = b'Z' ∷ []
zone (d ∷ ds) = b'.' ∷ d ∷ ds ++ b'Z' ∷ []

-- What follows the seconds in the text of a time `n` nanoseconds into its second.
unfoldable pub fraction_text : ℕ → Text
unfolding trim_zeros zone fixed
fraction_text n = zone (trim_zeros (fixed decimal 10 9 n))

-- `text a < text b` in SQLite.
unfoldable pub stamp_ltb : ℕ → ℕ → Bool
stamp_ltb a b =
    let fractions = text_ltb (fraction_text (a % second)) (fraction_text (b % second)) in
    if a / second == b / second then fractions else ltb (a / second) (b / second)

-- `text a <= text b` in SQLite.
unfoldable pub stamp_leb : ℕ → ℕ → Bool
stamp_leb a b = not (stamp_ltb b a)
