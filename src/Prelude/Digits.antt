-- ===== src/Prelude/Digits.antt =====
-- Numbers printed with a fixed number of digits: their order as texts is their order as numbers.
use Prim.Native.Nat.{ℕ, zero, suc, ◌*◌, ◌/◌, ◌%◌, ◌^◌, ◌<◌}
use mathlib.Core.Path.{◌≡◌}
use mathlib.Core.Bool.{Bool}
use mathlib.Core.List.{[], ◌∷◌, ◌++◌, append_assoc}
use native.Mathlib.Nat.{div-add-mod, mod-lt, pow-suc, lt_of_mul-lt-mul_left}
use Prim.Native.Nat.pow
use native.Mathlib.Omega.{arith}
use sonata.Prelude.Tests.{◌==◌, ltb, if◌then◌else◌}
use sonata.Prelude.Texts.{Text, text_ltb}

-- The last `w` digits of `n` in a base, most significant first.
unfoldable pub fixed : (ℕ → ℕ) → ℕ → ℕ → ℕ → Text
fixed char base zero n = []
fixed char base (suc w) n = fixed char base w (n / base) ++ char (n % base) ∷ []

one_value : (a : ℕ) → a < 1 → a ≡ 0
one_value a h = omega arith

module _ (char : ℕ → ℕ) (base : ℕ) (positive : 0 < base)
    (order : (c d : ℕ) → c < d → d < base → char c < char d) where
  digit_order :
      (c d : ℕ) (r s : Text)
      → c < base
      → d < base
      → text_ltb (char c ∷ r) (char d ∷ s) ≡ (if c == d then text_ltb r s else ltb c d)
  unfolding text_ltb
  digit_order c d r s hc hd = ground (arith, order c d, order d c)

  -- A number is below another if its leading digits are, or they agree and its last one is below.
  split_lt : (a b : ℕ) → a / base < b / base → a < b
  split_lt a b h = grind (arith, div-add-mod a base, div-add-mod b base, mod-lt a positive)

  split_eq : (a b : ℕ) → a / base ≡ b / base → base * (a / base) ≡ base * (b / base)
  split_eq a b h = rw h

  split_order :
      (a b : ℕ) (u : Bool)
      → (if a / base == b / base
          then (if a % base == b % base then u else ltb (a % base) (b % base))
          else ltb (a / base) (b / base))
        ≡ (if a == b then u else ltb a b)
  split_order a b u =
      ground
        (arith, div-add-mod a base, div-add-mod b base, split_lt a b, split_lt b a, split_eq a b)

  leading_lt : (w a : ℕ) → a < base ^ suc w → a / base < base ^ w
  leading_lt w a h =
      lt_of_mul-lt-mul_left base (omega (arith, div-add-mod a base, rw (pow-suc base w) at h))

  -- Two numbers of `w` digits, and texts behind them.
  pub text_ltb-fixed :
      (w a b : ℕ) (r s : Text)
      → a < base ^ w
      → b < base ^ w
      → text_ltb (fixed char base w a ++ r) (fixed char base w b ++ s)
        ≡ (if a == b then text_ltb r s else ltb a b)
  unfolding fixed
  text_ltb-fixed zero a b r s ha hb =
      ground (arith, one_value a (rw (pow.zero base) at ha), one_value b (rw (pow.zero base) at hb))
  text_ltb-fixed (suc w) a b r s ha hb =
      rw
        (
          append_assoc,
          append_assoc,
          text_ltb-fixed w (a / base) (b / base) _ _ (leading_lt w a ha) (leading_lt w b hb),
          digit_order (a % base) (b % base) r s (mod-lt a positive) (mod-lt b positive),
        )
        (split_order a b (text_ltb r s))
