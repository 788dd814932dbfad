-- ===== src/Store/Timestamp/Order.antt =====
-- Where the order of the stored texts is the order of the times, and where it is not.
use native.Mathlib.Nat.{pow-suc}
use sonata.Prelude.{
  ℕ, zero, suc, ◌+◌, ◌*◌, ◌/◌, ◌%◌, ◌^◌, ◌<◌, ◌≡◌, ◌≢◌, refl, ◌⊎◌, inl, inr, true, false, [], ◌∷◌,
  ◌++◌, Text, text_ltb, ◌==◌, ltb, leb, arith, Bool-cases, ap, sym,
}
use sonata.Prelude.Digits.{fixed, text_ltb-fixed}
use sonata.Store.Timestamp.{
  second, decimal, with_digit, trim_zeros, zone, fraction_text, stamp_ltb, stamp_leb,
}

-- A last digit that is not zero keeps the whole text.
with_digit-append : (b : ℕ) (t : Text) (c : ℕ) → with_digit b (t ++ c ∷ []) ≡ b ∷ (t ++ c ∷ [])
unfolding with_digit
with_digit-append b [] c = refl
with_digit-append b (d ∷ t) c = refl

trim_zeros-append : (t : Text) (c : ℕ) → c ≢ b'0' → trim_zeros (t ++ c ∷ []) ≡ t ++ c ∷ []
unfolding trim_zeros
trim_zeros-append [] c h = ground arith
trim_zeros-append (b ∷ t) c h = rw (trim_zeros-append t c h) (with_digit-append b t c)

-- A last digit that is zero goes.
trim_zeros-append_zero : (t : Text) → trim_zeros (t ++ b'0' ∷ []) ≡ trim_zeros t
unfolding trim_zeros
trim_zeros-append_zero [] = refl
trim_zeros-append_zero (b ∷ t) = ap (with_digit b) (trim_zeros-append_zero t)

zone-append : (t : Text) (c : ℕ) → zone (t ++ c ∷ []) ≡ b'.' ∷ (t ++ c ∷ []) ++ b'Z' ∷ []
unfolding zone
zone-append [] c = refl
zone-append (b ∷ t) c = refl

ne_zero_append : (t : Text) (c : ℕ) → t ++ c ∷ [] ≢ []
ne_zero_append [] c h = cc
ne_zero_append (b ∷ t) c h = cc

-- Some digit of a number other than 0 is not zero.
trim_zeros-ne_nil : (w n : ℕ) → 0 < n → n < 10 ^ w → trim_zeros (fixed decimal 10 w n) ≢ []
unfolding fixed
trim_zeros-ne_nil zero n p h = absurd (omega arith)
trim_zeros-ne_nil (suc w) n p h = elim (Bool-cases (n % 10 == 0)) [
  | inl e ↦
      let digit : n % 10 ≡ 0 = ground arith in
      rw (digit, trim_zeros-append_zero)
        (trim_zeros-ne_nil w (n / 10) (omega arith) (ten_fold w n h))
  | inr e ↦
      rw (trim_zeros-append (fixed decimal 10 w (n / 10)) (b'0' + n % 10) (ground arith))
        (ne_zero_append _ _)
]
  where
    ten_fold : (w n : ℕ) → n < 10 ^ suc w → n / 10 < 10 ^ w
    ten_fold w n h = omega (arith, rw (pow-suc 10 w) at h)

-- A fraction that is not zero begins with the point.
fraction_text-dot : (n : ℕ) → 0 < n → n < second → (t : Text) × (fraction_text n ≡ b'.' ∷ t)
unfolding fraction_text
fraction_text-dot n p h = dot (trim_zeros (fixed decimal 10 9 n)) (trim_zeros-ne_nil 9 n p h)
  where
    dot : (t : Text) → t ≢ [] → (u : Text) × (zone t ≡ b'.' ∷ u)
    dot [] h = absurd (h refl)
    dot (d ∷ t) h = (d ∷ t ++ b'Z' ∷ [], refl)

-- With a last digit other than zero the fraction is printed whole.
fraction_text-full :
    (n : ℕ) → n % 10 ≢ 0 → fraction_text n ≡ b'.' ∷ fixed decimal 10 9 n ++ b'Z' ∷ []
unfolding fraction_text fixed
fraction_text-full n h =
    rw (trim_zeros-append (fixed decimal 10 8 (n / 10)) (b'0' + n % 10) (ground arith))
      (zone-append (fixed decimal 10 8 (n / 10)) (b'0' + n % 10))

same_second :
    (a b : ℕ)
    → a / second ≡ b / second
    → stamp_ltb a b ≡ text_ltb (fraction_text (a % second)) (fraction_text (b % second))
unfolding stamp_ltb
same_second a b h = ground arith

other_second : (a b : ℕ) → a / second ≢ b / second → stamp_ltb a b ≡ ltb a b
unfolding stamp_ltb
other_second a b h = ground arith

point_below_zone :
    (t : Text)
    → (text_ltb (b'.' ∷ t) (fraction_text 0) ≡ true)
      × (text_ltb (fraction_text 0) (b'.' ∷ t) ≡ false)
unfolding fraction_text text_ltb
point_below_zone t = (refl, refl)

stamp_leb-wrong_within_second :
    (s n : ℕ)
    → 0 < n
    → n < second
    → (stamp_leb (s * second) (s * second + n) ≡ false)
      × (stamp_leb (s * second + n) (s * second) ≡ true)
unfolding stamp_leb
stamp_leb-wrong_within_second s n p h =
    let (t, e) = fraction_text-dot n p h in
    let whole : (s * second) % second ≡ 0 = omega arith in
    let part : (s * second + n) % second ≡ n = omega arith in
    rw
      (
        same_second (s * second + n) (s * second) (omega arith),
        same_second (s * second) (s * second + n) (omega arith),
        whole,
        part,
        e,
        (point_below_zone t).0,
        (point_below_zone t).1,
      )
      (refl, refl)

point_order : (s t : Text) → text_ltb (b'.' ∷ s) (b'.' ∷ t) ≡ text_ltb s t
unfolding text_ltb
point_order s t = refl

full_texts :
    (m n : ℕ)
    → m < second
    → n < second
    → text_ltb (b'.' ∷ fixed decimal 10 9 m ++ b'Z' ∷ []) (b'.' ∷ fixed decimal 10 9 n ++ b'Z' ∷ [])
      ≡ ltb m n
unfolding text_ltb
full_texts m n hm hn =
    rw
      (
        point_order,
        text_ltb-fixed decimal 10 (omega arith) (λ c d h k. omega arith) 9 m n (b'Z' ∷ [])
            (b'Z' ∷ []) hm hn,
      )
      (ground arith)

full_order :
    (m n : ℕ)
    → m < second
    → n < second
    → m % 10 ≢ 0
    → n % 10 ≢ 0
    → text_ltb (fraction_text m) (fraction_text n) ≡ ltb m n
full_order m n hm hn p q =
    rw (fraction_text-full m p, fraction_text-full n q) (full_texts m n hm hn)

chronological_ltb :
    (a b : ℕ) → (a / second ≢ b / second) ⊎ ((a % 10 ≢ 0) × (b % 10 ≢ 0)) → stamp_ltb a b ≡ ltb a b
chronological_ltb a b (inl h) = other_second a b h
chronological_ltb a b (inr (p, q)) = elim (Bool-cases (a / second == b / second)) [
  | inl e ↦
      let same : a / second ≡ b / second = ground arith in
      rw
        (
          same_second a b same,
          full_order (a % second) (b % second) (omega arith) (omega arith) (omega arith)
              (omega arith),
        )
        (ground arith)
  | inr e ↦ other_second a b (ground arith)
]

stamp_leb-chronological :
    (a b : ℕ) → (a / second ≢ b / second) ⊎ ((a % 10 ≢ 0) × (b % 10 ≢ 0)) → stamp_leb a b ≡ leb a b
unfolding stamp_leb
stamp_leb-chronological a b (inl h) =
    rw (chronological_ltb b a (inl (λ e. h (sym e)))) (ground arith)
stamp_leb-chronological a b (inr (p, q)) = rw (chronological_ltb b a (inr (q, p))) (ground arith)

-- Within one second, the whole second comes after every later instant of it: for s whole seconds
-- and 0 < n < 1 s, the text of s + n is below the text of s, so that a backoff gate at s is not
-- reached at s + n, and a gate at s + n counts as reached at s already. Between different seconds,
-- and between two times whose nanoseconds do not end in zero, the order of the texts is the order of
-- the times.
pub stamp_leb-order :
    (s n a b : ℕ)
    → 0 < n
    → n < second
    → (a / second ≢ b / second) ⊎ ((a % 10 ≢ 0) × (b % 10 ≢ 0))
    → (stamp_leb (s * second) (s * second + n) ≡ false)
      × (stamp_leb (s * second + n) (s * second) ≡ true)
      × (stamp_leb a b ≡ leb a b)
stamp_leb-order s n a b p h apart =
    let (above, below) = stamp_leb-wrong_within_second s n p h in
    (above, below, stamp_leb-chronological a b apart)
