-- ===== src/Store/Id.antt =====
-- internal/store/id.go: NewID, with the state that its mutex guards. A call is given the clock in
-- milliseconds and the eight random bytes as one number below 2 ^ 64.
pub mod Order
use sonata.Prelude.{
  ℕ, suc, ◌+◌, ◌*◌, ◌/◌, ◌%◌, ◌^◌, List, [], ◌∷◌, ◌++◌, Text, ltb, leb, if◌then◌else◌,
}
use sonata.Prelude.Digits.{fixed}

-- idState.
pub record IdState : Type 0 where
  pub ms : ℕ
  pub seq : ℕ

-- `uint16(b[8])<<3 | uint16(b[9])>>5`: the 11 leading bits.
abbrev pub seed_of : ℕ → ℕ
seed_of random = random / 2 ^ 53 % 2 ^ 11

-- The critical section.
unfoldable pub advance : ℕ → ℕ → IdState → IdState
advance now random s =
    if leb now s.ms
    then if ltb 0x0fff (suc s.seq)
      then record { ms = suc s.ms; seq = 0 }
      else record { ms = s.ms; seq = suc s.seq }
    else record { ms = now; seq = seed_of random }

-- A digit of `%x`.
abbrev pub hex : ℕ → ℕ
hex n = if ltb n 10 then 48 + n else 87 + n

-- b[8:16] with the variant, as the last two groups.
unfoldable pub random_groups : ℕ → Text
random_groups random =
    b'-'
    ∷ (fixed hex 16 4 (0x8000 + random / 2 ^ 48 % 2 ^ 14)
        ++ (b'-' ∷ fixed hex 16 12 (random % 2 ^ 48)))

-- b[6:8], the version and the counter, and what follows.
unfoldable pub counter_groups : ℕ → ℕ → Text
counter_groups seq random = b'-' ∷ (fixed hex 16 4 (0x7000 + seq % 2 ^ 12) ++ random_groups random)

-- The text of an id: the 48 bits of the timestamp first.
unfoldable pub id_text : IdState → ℕ → Text
id_text s random =
    fixed hex 16 8 (s.ms % 2 ^ 48 / 2 ^ 16)
    ++ (b'-' ∷ (fixed hex 16 4 (s.ms % 2 ^ 16) ++ counter_groups s.seq random))

-- The state after some calls, each with its clock and its random bytes, and the ids they return.
unfoldable pub after_calls : List (ℕ × ℕ) → IdState → IdState
unfolding advance
after_calls [] s = s
after_calls ((now, random) ∷ calls) s = after_calls calls (advance now random s)

unfoldable pub new_ids : List (ℕ × ℕ) → IdState → List Text
unfolding advance id_text
new_ids [] s = []
new_ids ((now, random) ∷ calls) s =
    let s' = advance now random s in id_text s' random ∷ new_ids calls s'
