-- ===== src/Scheduler/Backoff/Bounds.antt =====
-- The closed form of the delay, and the range of the jitter.
use mathlib.Core.Path.{subst}
use native.Mathlib.Nat.{
  mul-le-mul_left, mul-le-mul_right, mod-eq_of_lt, pow-suc, pow-zero, mul_assoc, add-zero, add-suc,
  one-le-pow, lt_of_mul-lt-mul_left, dvd_trans, dvd-mul_left, dvd-mul_right, dvd-mod_iff, le_of_dvd,
  mod-eq-zero_of_dvd,
}
use sonata.Prelude.{
  ℕ, zero, suc, ◌+◌, ◌-◌, ◌*◌, ◌%◌, ◌^◌, ◌≤◌, ◌<◌, ◌≡◌, refl, ltb, ◌==◌, if◌then◌else◌, arith,
  Bool-cases, ==_iff, ltb→lt, ◌⊎◌, inl, inr,
}
use Prim.Native.Nat.{min, ◌∣◌}
use sonata.Scheduler.Backoff.{word, out_of_range, sign_bit, delay, random_steps, jittered, backoff}

-- The jitter moves a delay by at most 20 %, up to the last nanosecond.
pub jittered_bounds :
    (d r : ℕ) → r < random_steps → (8 * d ≤ 10 * jittered d r + 9) × (10 * jittered d r ≤ 12 * d)
unfolding jittered
jittered_bounds d r h =
    let draw : ℕ = d * r in
    let below : d * r ≤ d * (random_steps - 1) = mul-le-mul_left d (omega arith) in omega arith

pow_split : (i j : ℕ) → 2 ^ (i + j) ≡ 2 ^ i * 2 ^ j
pow_split i zero = rw (add-zero, pow-zero) (omega arith)
pow_split i (suc j) = rw (add-suc, pow-suc, pow-suc, pow_split i j) (omega arith)

pow_dvd : (i j : ℕ) → i ≤ j → 2 ^ i ∣ 2 ^ j
pow_dvd i j h =
    let e : i + (j - i) ≡ j = omega arith in
    subst (λ n. 2 ^ i ∣ 2 ^ n) e (rw (pow_split i (j - i)) (dvd-mul_right (2 ^ i) (2 ^ (j - i))))

-- The remainder of a multiple of a power of two is 0 or at least that power.
remainder : (o n : ℕ) → ((o * 2 ^ n) % word ≡ 0) ⊎ (2 ^ n ≤ (o * 2 ^ n) % word)
remainder o n = elim (le_cases n 64) [
  | inl h ↦
      let d : 2 ^ n ∣ (o * 2 ^ n) % word =
        (dvd-mod_iff (2 ^ n) (pow_dvd n 64 h)).1 (dvd-mul_left (2 ^ n) o) in
      elim (Bool-cases ((o * 2 ^ n) % word == 0)) [
        | inl z ↦ inl ((==_iff _ _).0 z)
        | inr z ↦ inr (le_of_dvd (ground arith) d)
      ]
  | inr h ↦ inl (mod-eq-zero_of_dvd word (dvd_trans word (pow_dvd 64 n h) (dvd-mul_left (2 ^ n) o)))
]
  where
    le_cases : (a b : ℕ) → (a ≤ b) ⊎ (b ≤ a)
    le_cases a b = ground arith

clip :
    (cap x w p : ℕ)
    → 0 < cap
    → 0 < x
    → (sign_bit ≤ x → cap < p)
    → (x < sign_bit → w ≡ x)
    → cap < sign_bit
    → (w ≡ 0) ⊎ (p ≤ w)
    → (if out_of_range w cap then cap else w) ≡ min x cap
clip cap x w p hc hx big small hs m = elim (Bool-cases (ltb x sign_bit)) [
  | inl l ↦ let e : w ≡ x = small (ltb→lt _ _ l) in ground arith
  | inr l ↦ let above : cap < p = big (ground arith) in ground arith
]

-- For a base of o * 2 ^ e with o * cap below 2 ^ 63, the shift is cut off at the cap also where it
-- overflows.
delay-min :
    (o e cap attempt : ℕ)
    → 0 < o
    → 0 < cap
    → o * cap < sign_bit
    → delay (o * 2 ^ e) cap attempt ≡ min (o * 2 ^ e * 2 ^ (attempt - 1)) cap
unfolding delay
delay-min o e cap attempt ho hc h =
    let k : ℕ = attempt - 1 in
    let split : o * 2 ^ e * 2 ^ (attempt - 1) ≡ o * 2 ^ (e + (attempt - 1)) =
      rw (pow_split e (attempt - 1), mul_assoc) in
    rw split (
      clip cap (o * 2 ^ (e + (attempt - 1))) ((o * 2 ^ (e + (attempt - 1))) % word)
        (2 ^ (e + (attempt - 1))) hc
        (omega (arith, mul-le-mul_left o (one-le-pow (e + (attempt - 1)) 2 (omega arith))))
        (λ l. lt_of_mul-lt-mul_left o (omega arith)) (λ l. mod-eq_of_lt (omega arith))
        (omega (arith, mul-le-mul_right cap ho)) (remainder o (e + (attempt - 1))))

-- For a base of o * 2 ^ e with o * cap below 2 ^ 63 (as 10 ^ 9 = 1953125 * 2 ^ 9 is for every cap up
-- to 78 minutes): before the jitter the delay of retry n is min(base * 2 ^ (n - 1), cap) for every n,
-- also where the shift overflows, and the jitter moves it by at most 20 %, up to the last nanosecond.
pub backoff-min :
    (o e cap attempt r : ℕ)
    → 0 < o
    → 0 < cap
    → o * cap < sign_bit
    → r < random_steps
    → (delay (o * 2 ^ e) cap attempt ≡ min (o * 2 ^ e * 2 ^ (attempt - 1)) cap)
      × (8 * min (o * 2 ^ e * 2 ^ (attempt - 1)) cap ≤ 10 * backoff (o * 2 ^ e) cap attempt r + 9)
      × (10 * backoff (o * 2 ^ e) cap attempt r ≤ 12 * min (o * 2 ^ e * 2 ^ (attempt - 1)) cap)
unfolding backoff jittered
backoff-min o e cap attempt r ho hc h hr =
    let exact = delay-min o e cap attempt ho hc h in
    let (low, high) = jittered_bounds (min (o * 2 ^ e * 2 ^ (attempt - 1)) cap) r hr in
    rw exact (refl, low, high)
