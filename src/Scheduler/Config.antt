-- ===== src/Scheduler/Config.antt =====
-- internal/scheduler/scheduler.go: the configuration. Durations are in nanoseconds, and every
-- field is an integer, since nothing stops a negative one before `withDefaults`.
use sonata.Prelude.{ℕ, ◌*◌, if◌then◌else◌}
use sonata.Prelude.Int.{ℤ, pos, ltb_ℤ}

pub record Config : Type 0 where
  pub max_hops : ℤ
  pub default_max_attempts : ℤ
  pub default_task_timeout : ℤ
  pub backoff_base : ℤ
  pub backoff_cap : ℤ
  pub stdout_cap : ℤ

abbrev pub second : ℕ
second = 1000000000

abbrev pub or_positive : ℤ → ℕ → ℤ
or_positive n d = if ltb_ℤ (pos 0) n then n else pos d

-- withDefaults.
unfoldable pub with_defaults : Config → Config
with_defaults c = record {
  max_hops = or_positive c.max_hops 100;
  default_max_attempts = or_positive c.default_max_attempts 3;
  default_task_timeout = or_positive c.default_task_timeout (5 * 60 * second);
  backoff_base = or_positive c.backoff_base second;
  backoff_cap = or_positive c.backoff_cap (60 * second);
  stdout_cap = or_positive c.stdout_cap (4 * 1048576);
}
