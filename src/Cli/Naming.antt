-- ===== src/Cli/Naming.antt =====
-- internal/cli/down.go: a daemon that holds the lock and does not answer, found by the pid that it
-- wrote into the lock file (internal/daemon/lock.go).
use sonata.Prelude.{
  ◌≡◌, refl, true, false, Option, some, [], ◌∷◌, ◌++◌, Text, ok, err, Bool-cases, inl, inr, All,
}
use sonata.Prelude.Int.{ℤ, pos, ltb_ℤ}
use sonata.Prelude.Spaces.{is_space, trim_right, trim_space}
use sonata.Api.Transport.{no_daemon}
use sonata.Daemon.Lock.{locked, PidWrite, write_pid, read_pid, named_holder, running_pid}
use sonata.Cli.Lifecycle.{resolve_daemon_pid, lock_holder}

IsDense : Text → Type 0
IsDense t = All (λ c. is_space c ≡ false) t

trim_right-newline : (t : Text) → IsDense t → trim_right (t ++ 10 ∷ []) ≡ t
unfolding IsDense trim_right is_space
trim_right-newline [] h = refl
trim_right-newline (c ∷ []) h = rw h.0 refl
trim_right-newline (c ∷ d ∷ t) h = rw (trim_right-newline (d ∷ t) h.1) refl

trim_space-newline : (t : Text) → IsDense t → trim_space (t ++ 10 ∷ []) ≡ t
unfolding IsDense trim_space is_space
trim_space-newline [] h = refl
trim_space-newline (c ∷ t) h = rw h.0 (trim_right-newline (c ∷ t) h)

write_pid-ok :
    (itoa : ℤ → Text) (os : PidWrite) (pid : ℤ) (contents : Text)
    → (write_pid itoa os pid contents).0 ≡ ok tt
    → (write_pid itoa os pid contents).1 ≡ itoa pid ++ 10 ∷ []
unfolding write_pid
write_pid-ok itoa os pid contents e = elim (Bool-cases os.truncates) [
  | inr down ↦ cc ((rw down at e))
  | inl cut ↦ elim (Bool-cases os.writes) [
    | inr down ↦ cc ((rw (cut, down) at e))
    | inl done ↦ rw (cut, done) refl
  ]
]

-- Where Atoi reads back the digits of Itoa and there is no white space in them, the writes of
-- WritePID succeed, and the pid is positive: while the daemon holds its lock and does not answer on
-- its socket, `sonata down` finds it by the pid that it wrote, whatever was in the file before.
pub resolve_daemon_pid-write_pid :
    (itoa : ℤ → Text) (atoi : Text → Option ℤ) (os : PidWrite) (pid : ℤ) (contents : Text)
    → atoi (itoa pid) ≡ some pid
    → All (λ c. is_space c ≡ false) (itoa pid)
    → (write_pid itoa os pid contents).0 ≡ ok tt
    → ltb_ℤ (pos 0) pid ≡ true
    → resolve_daemon_pid
        (err no_daemon)
        (running_pid atoi (some (write_pid itoa os pid contents).1) (err locked))
      ≡ ok (some pid)
unfolding resolve_daemon_pid running_pid lock_holder named_holder read_pid IsDense
resolve_daemon_pid-write_pid itoa atoi os pid contents back dense wrote positive =
    rw
      (
        write_pid-ok itoa os pid contents wrote,
        trim_space-newline (itoa pid) dense,
        back,
        named_holder,
        positive,
      )
      refl
