-- ===== src/Workflow/Definition.antt =====
-- internal/workflow/action.go: the authored unit and its defaults.
-- `int` and `Duration` fields are integers, since a definition may give a negative one; an unset
-- pointer is `none`. The instructions block stays raw text.
use sonata.Prelude.{
  ◌*◌, Bool, false, not, Option, none, some, List, [], ◌∷◌, map, Text, codes, is_empty,
}
use sonata.Prelude.Int.{ℤ, pos}

pub record Input : Type 0 where
  pub queue : Text
  pub filter : Text
  pub correlate_on : Text

pub record Action : Type 0 where
  pub name : Text
  pub inputs : List Input
  pub actor : Text
  pub instructions : Text
  pub output : Text
  pub concurrency : Option ℤ
  pub max_attempts : Option ℤ
  pub join_timeout : Option ℤ

pub record SubprocessInstructions : Type 0 where
  pub command : List Text
  pub timeout : Option ℤ

abbrev pub actor_subprocess : Text
actor_subprocess = codes "subprocess"

abbrev pub default_concurrency : ℤ
default_concurrency = pos 1

-- 24 h, in nanoseconds.
abbrev pub default_join_timeout : ℤ
default_join_timeout = pos (24 * 3600 * 1000000000)

unfoldable pub first_correlates : List Input → Bool
first_correlates [] = false
first_correlates (input ∷ rest) = not (is_empty input.correlate_on)

unfoldable pub is_join : Action → Bool
unfolding first_correlates
is_join a = first_correlates a.inputs

unfoldable pub queues : Action → List Text
queues a = map (λ input. input.queue) a.inputs

abbrev pub or_default {ℓ} : {A : Type ℓ} → Option A → A → A
or_default none d = d
or_default (some a) d = a

unfoldable pub concurrency_or_default : Action → ℤ
concurrency_or_default a = or_default a.concurrency default_concurrency

unfoldable pub join_timeout_or_default : Action → ℤ
join_timeout_or_default a = or_default a.join_timeout default_join_timeout
