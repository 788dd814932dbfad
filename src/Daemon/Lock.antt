-- ===== src/Daemon/Lock.antt =====
-- internal/daemon/lock.go: taking the lock, waiting for it, and who holds it.
-- The file system, flock(2) and the clock are parameters: what they answer at the k-th attempt.
pub mod Waiting
use sonata.Prelude.{
  ℕ, zero, suc, ◌+◌, [], ◌∷◌, ◌++◌, Bool, true, false, not, ◌&&◌, ◌||◌, Option, none, some, Text,
  Result, ok, err, ltb, if◌then◌else◌,
}
use sonata.Prelude.Int.{ℤ, pos, ltb_ℤ}
use sonata.Prelude.Spaces.{trim_space}

pub data Flock : Type 0 where
  taken would_block refused : Flock

pub data LockError : Type 0 where
  open_failed locked flock_failed timed_out : LockError

-- `clock` is read after the attempt.
pub record Attempts : Type 0 where
  pub opens : ℕ → Bool
  pub flocks : ℕ → Flock
  pub clock : ℕ → ℕ

unfoldable pub flocked : Flock → Result LockError (Unit {0})
flocked taken = ok tt
flocked would_block = err locked
flocked refused = err flock_failed

-- Acquire, at the k-th attempt.
unfoldable pub acquire : Attempts → ℕ → Result LockError (Unit {0})
unfolding flocked
acquire os k = if os.opens k then flocked (os.flocks k) else err open_failed

-- 20 ms.
abbrev pub pause : ℕ
pause = 20000000

-- The body of the loop of AcquireWait, with the rest of the loop.
unfoldable pub after_attempt :
    Result LockError (Unit {0})
    → Bool
    → Option (Result LockError (Unit {0}))
    → Option (Result LockError (Unit {0}))
after_attempt (ok u) late rest = some (ok u)
after_attempt (err locked) true rest = some (err timed_out)
after_attempt (err locked) false rest = rest
after_attempt (err e) late rest = some (err e)

-- The loop of AcquireWait from the k-th attempt on, on fuel.
unfoldable pub attempts : Attempts → ℕ → ℕ → ℕ → Option (Result LockError (Unit {0}))
unfolding after_attempt acquire
attempts os deadline k zero = none
attempts os deadline k (suc fuel) =
    let rest = attempts os deadline (suc k) fuel in
    after_attempt (acquire os k) (ltb deadline (os.clock k)) rest

-- AcquireWait, called at `start`.
unfoldable pub acquire_wait : Attempts → ℕ → ℕ → ℕ → Option (Result LockError (Unit {0}))
unfolding attempts
acquire_wait os start timeout fuel = attempts os (start + timeout) 0 fuel

-- ReadPID: `read` is os.ReadFile and `atoi` strconv.Atoi.
unfoldable pub read_pid : (Text → Option ℤ) → Option Text → Option ℤ
read_pid atoi none = none
read_pid atoi (some contents) = atoi (trim_space contents)

-- How the calls of WritePID go; `partial` is what a write that fails has left.
pub record PidWrite : Type 0 where
  pub partial : Text
  pub truncates : Bool
  pub writes : Bool
  pub syncs : Bool

pub data PidError : Type 0 where
  not_truncated not_written not_synced : PidError

-- WritePID, with the contents of the lock file before and after; `itoa` is strconv.Itoa.
unfoldable pub write_pid : (ℤ → Text) → PidWrite → ℤ → Text → Result PidError (Unit {0}) × Text
write_pid itoa os pid contents =
    if os.truncates
    then (if os.writes
        then (if os.syncs then ok tt else err not_synced, itoa pid ++ 10 ∷ [])
        else (err not_written, os.partial))
    else (err not_truncated, contents)

-- Release: the error of unlocking comes before that of closing the file.
unfoldable pub release : Option Text → Option Text → Option Text
release none closing = closing
release (some unlocking) closing = some unlocking

unfoldable pub named_holder : Option ℤ → ℤ × Bool
named_holder none = (pos 0, true)
named_holder (some pid) = (pid, true)

-- RunningPID: a lock that it takes is released at once.
unfoldable pub running_pid :
    (Text → Option ℤ) → Option Text → Result LockError (Unit {0}) → ℤ × Bool
unfolding read_pid named_holder
running_pid atoi contents (ok u) = (pos 0, false)
running_pid atoi contents (err locked) = named_holder (read_pid atoi contents)
running_pid atoi contents (err e) = (pos 0, false)

-- What kill(pid, 0) answers.
pub data Signalled : Type 0 where
  delivered not_permitted no_process : Signalled

-- Alive.
unfoldable pub alive : ℤ → Signalled → Bool
alive pid no_process = false
alive pid answer = ltb_ℤ (pos 0) pid
