-- ===== src/Cli/Stopping.antt =====
-- internal/cli/down.go: `sonata down`, with Stop of internal/daemon/spawn.go; and the exit codes of
-- status.go.
use sonata.Prelude.{
  ℕ, suc, ◌+◌, ◌*◌, ◌≤◌, ◌≡◌, refl, ◌⊎◌, inl, inr, Bool, true, false, Option, none, some, Result,
  ok, err, Bool-cases,
}
use sonata.Prelude.Int.{ℤ, pos, ltb_ℤ}
use sonata.Api.Transport.{
  ClientError, unencodable_request, no_daemon, connection_failed, undecodable_response,
  unexpected_status, reported,
}
use sonata.Daemon.Run.{Removal, removed, absent, refused}
use sonata.Api.Client.{Health}
use sonata.Daemon.Spawn.{
  ready_poll_interval, Kill, sent, esrch, denied, Stopping, Stopped, killed, cleared, stop,
}
use sonata.Daemon.Spawn.Graceful.{Lingers, GoneAt, LateAt, Stops, stop-Stops}
use sonata.Cli.{CmdError, exit_error, plain_error, execute}
use sonata.Cli.Lifecycle.{
  resolve_daemon_pid, lock_holder, stop_result, after_stop, down_resolved, down,
}

module _ (found : Result CmdError (Option ℤ)) (os : Stopping) (deadline : ℕ) where
  -- No daemon was there, or its process was gone at the signal, or it and the socket were seen to
  -- be gone before the deadline.
  abbrev pub IsDown : Type 0
  IsDown =
      (found ≡ ok none)
      ⊎ ((pid : ℤ) × (found ≡ ok (some pid))
          × ((os.term ≡ esrch) ⊎ ((n : ℕ) × GoneAt pid os deadline n)))

  -- The daemon could not be determined or signalled, or it or the socket was there up to the
  -- deadline.
  abbrev pub IsForced : Type 0
  IsForced =
      ((e : CmdError) × (found ≡ err e))
      ⊎ ((pid : ℤ) × (found ≡ ok (some pid))
          × ((os.term ≡ denied)
              ⊎ ((n : ℕ) × Lingers pid os deadline 0 n × LateAt pid os deadline n)))

  abbrev pub DownExits : Option (Result CmdError (Unit {0})) → Type 0
  DownExits o =
      (r : Result CmdError (Unit {0})) × (o ≡ some r)
      × (((execute r ≡ 0) × IsDown) ⊎ ((execute r ≡ 3) × IsForced))

killed-code :
    (kill : Kill) (r : Removal) → execute (stop_result (killed kill r).1 (killed kill r).2) ≡ 3
unfolding killed cleared stop_result execute
killed-code denied r = refl
killed-code sent removed = refl
killed-code sent absent = refl
killed-code sent refused = refl
killed-code esrch removed = refl
killed-code esrch absent = refl
killed-code esrch refused = refl

stopped-DownExits :
    (os : Stopping) (deadline : ℕ) (pid : ℤ) (o : Option Stopped)
    → Stops pid os deadline o
    → DownExits (ok (some pid)) os deadline (after_stop o)
unfolding after_stop stop_result execute
stopped-DownExits os deadline pid o (inl (e, out)) =
    (ok tt, rw out refl, inl (refl, inr (pid, refl, inl e)))
stopped-DownExits os deadline pid o (inr (inl (e, out))) =
    (err (exit_error 3), rw out refl, inr (refl, inr (pid, refl, inl e)))
stopped-DownExits os deadline pid o (inr (inr (e, (n, rounds, inl (at, out))))) =
    (ok tt, rw out refl, inl (refl, inr (pid, refl, inr (n, at))))
stopped-DownExits os deadline pid o (inr (inr (e, (n, rounds, inr (at, out))))) =
    let (effects, k, r) = killed os.kill os.remove in
    (
      stop_result k r,
      rw out refl,
      inr (killed-code os.kill os.remove, inr (pid, refl, inr (n, rounds, at))),
    )

operational-code :
    {A : Type 0} (e : CmdError)
    → ◌≡◌ {A = Result CmdError A} (err (exit_error 3)) (err e)
    → execute (err e) ≡ 3
unfolding execute
operational-code (exit_error code) h = cc h
operational-code plain_error h = refl

resolved-code :
    (health : Result ClientError Health) (holder : ℤ × Bool) (e : CmdError)
    → resolve_daemon_pid health holder ≡ err e
    → execute (err e) ≡ 3
unfolding resolve_daemon_pid lock_holder
resolved-code (ok h) holder e r = cc r
resolved-code (err no_daemon) (pid, false) e r = cc r
resolved-code (err no_daemon) (pid, true) e r = elim (Bool-cases (ltb_ℤ (pos 0) pid)) [
  | inl named ↦ cc ((rw named at r))
  | inr unnamed ↦ operational-code e (rw unnamed at r)
]
resolved-code (err unencodable_request) holder e r = operational-code e r
resolved-code (err connection_failed) holder e r = operational-code e r
resolved-code (err undecodable_response) holder e r = operational-code e r
resolved-code (err (unexpected_status n)) holder e r = operational-code e r
resolved-code (err (reported c m)) holder e r = operational-code e r

-- Where a sleep lasts at least its 25 ms and there is fuel for the loop of Stop: `sonata down`
-- returns, and exits with 0 or 3. With 0: no daemon was found, or its process did not exist at the
-- signal, or it and the socket were seen to be gone before the deadline. With 3: whether a daemon
-- runs could not be determined, or it could not be signalled, or it or the socket was there in each
-- round up to the deadline.
pub down-DownExits :
    (health : Result ClientError Health) (holder : ℤ × Bool) (os : Stopping)
    (start timeout fuel : ℕ)
    → ((k : ℕ) → os.clock k + ready_poll_interval ≤ os.clock (suc k))
    → start ≤ os.clock 0
    → timeout ≤ ready_poll_interval * fuel
    → DownExits
        (resolve_daemon_pid health holder)
        os
        (start + timeout)
        (down health holder os start timeout (suc fuel))
unfolding down execute
down-DownExits health holder os start timeout fuel sleeps before enough =
    resolved (resolve_daemon_pid health holder) refl
  where
    resolved :
        (found : Result CmdError (Option ℤ))
        → resolve_daemon_pid health holder ≡ found
        → DownExits found os
            (start + timeout)
            (down_resolved found (λ pid. stop pid os start timeout (suc fuel)))
    resolved (err e) h = (err e, refl, inr (resolved-code health holder e h, inl (e, refl)))
    resolved (ok none) h = (ok tt, refl, inl (refl, inl refl))
    resolved (ok (some pid)) h =
        stopped-DownExits os (start + timeout) pid (stop pid os start timeout (suc fuel))
          (stop-Stops pid os start timeout fuel sleeps before enough)
