-- ===== src/Scheduler/Backoff.antt =====
-- internal/scheduler/scheduler.go: the delay before a retry.
-- A Duration is an int64, kept as its bit pattern below 2 ^ 64; a pattern from 2 ^ 63 on is
-- negative. `base` and `cap` are positive by `withDefaults`.
pub mod Bounds
use sonata.Prelude.{ℕ, ◌+◌, ◌-◌, ◌*◌, ◌/◌, ◌%◌, ◌^◌, Bool, ◌||◌, ltb, leb, ◌==◌, if◌then◌else◌}

abbrev pub word : ℕ
word = 2 ^ 64

abbrev pub sign_bit : ℕ
sign_bit = 2 ^ 63

-- `base << (attempt - 1)` on an int64. The attempt is at least 1 when this runs.
unfoldable pub shifted : ℕ → ℕ → ℕ
shifted base attempt = (base * 2 ^ (attempt - 1)) % word

-- `d > cap || d <= 0`, for a positive cap.
abbrev pub out_of_range : ℕ → ℕ → Bool
out_of_range d cap = leb sign_bit d || d == 0 || ltb cap d

-- The delay before the jitter.
unfoldable pub delay : ℕ → ℕ → ℕ → ℕ
unfolding shifted
delay base cap attempt = let d = shifted base attempt in if out_of_range d cap then cap else d

-- rand.Float64() is r / 2 ^ 53 for some r < 2 ^ 53.
abbrev pub random_steps : ℕ
random_steps = 2 ^ 53

-- `Duration(float64(d) * (0.8 + 0.4 * rand.Float64()))`, over exact fractions: the rounding of the
-- float64 operations is left out.
unfoldable pub jittered : ℕ → ℕ → ℕ
jittered d r = d * (8 * random_steps + 4 * r) / (10 * random_steps)

unfoldable pub backoff : ℕ → ℕ → ℕ → ℕ → ℕ
unfolding delay jittered
backoff base cap attempt r = jittered (delay base cap attempt) r
