-- ===== src/Examples/Starting.antt =====
-- Opening the store, and starting the daemon's process.
use sonata.Prelude.{
  ℕ, zero, suc, ◌≡◌, refl, Bool, true, false, not, Option, none, some, List, [], ◌∷◌, Text, codes,
  Result, ok, err, ◌==◌, same, same→eq, count, ◌≤◌, arith, Bool-cases, inl, inr, if◌then◌else◌,
}
use sonata.Prelude.Int.{pos}
use sonata.Store.Migrations.{Database, Migrations, Run, migrate, Opening, answers, open_store}
use sonata.Store.Migrations.Resuming.{smooth, migrate-after}
use sonata.Store.Migrations.Opened.{Distinct, Opens, open_store-Opens}
use sonata.Daemon.Run.{Outcomes, removed, signal, take_lock, write_pid, remove_stale, listen, run}
use sonata.Daemon.Run.Order.{does, Leaves, run-Leaves}
use sonata.Daemon.Run.Fleet.{start, has, here, next, act, Reach-Apart}
use sonata.Daemon.Spawn.{timed_out}
use sonata.Api.Transport.{no_daemon}
use sonata.Daemon.Ensure.Sequence.{Ensuring, ensure_running}
use sonata.Daemon.Ensure.Settling.{Settles, ensure_running-Settles}

-- Two files, each of which adds one to the content.
abbrev files : List Text
files = codes "0002_actions.sql" ∷ codes "0001_messages.sql" ∷ []

abbrev migrations : Migrations ℕ
migrations = record { files = files; source = λ name. some name; exec = λ text n. some (suc n) }

abbrev empty_file : Database ℕ
empty_file = record { recorded = []; content = 0 }

-- The second transaction does not commit.
abbrev interrupted : Run
interrupted = record smooth { commits = λ k. k == 0 }

-- The interrupted run has applied one file.
interrupted_once : (migrate migrations interrupted empty_file).1.content ≡ 1
unfolding migrate sonata.Prelude.Sorting.insert_sorted same
interrupted_once = refl

migrate-after_example :
    migrate migrations smooth (migrate migrations interrupted empty_file).1
    ≡ migrate migrations smooth empty_file
migrate-after_example = migrate-after migrations interrupted empty_file

files-Distinct : Distinct files
unfolding same
files-Distinct x = elim (Bool-cases (same x (codes "0002_actions.sql"))) [
  | inr other ↦ rw other (ground arith)
  | inl first ↦
      let it = same→eq x (codes "0002_actions.sql") first in
      let not_second : same x (codes "0001_messages.sql") ≡ false = rw it refl in
      rw (first, not_second) (omega arith)
]

abbrev opening : Opening
opening = record {
  makes_dir = true;
  dial_writer = answers;
  dial_reader = answers;
  run = interrupted;
  reader_closes = none;
  writer_closes = none;
}

open_store-Opens_example : Opens migrations empty_file (open_store migrations opening empty_file)
open_store-Opens_example = open_store-Opens migrations opening empty_file files-Distinct

-- A run whose scheduler does not become ready.
abbrev outcomes : Outcomes
outcomes = record {
  makes_dir = true;
  lock = ok tt;
  holder = (pos 0, false);
  writes_pid = true;
  removes_stale = removed;
  listens = true;
  restricts = true;
  opens_store = true;
  reaps = true;
  gets_ready = false;
  ending = signal;
}

run-Leaves_example : Leaves outcomes
run-Leaves_example = run-Leaves outcomes

-- Two such processes, of which the first has taken the lock and written its pid.
abbrev everywhere : ℕ → Outcomes
everywhere p = outcomes

-- The first process has come to listen, and the second has not begun.
Reach-Apart_example : has (start everywhere 1).held ≡ false
unfolding run does
Reach-Apart_example =
    Reach-Apart everywhere
      (next
        (next (next (next here (act 0 take_lock _ refl (λ q. refl))) (act 0 write_pid _ refl tt))
          (act 0 remove_stale _ refl tt))
        (act 0 listen _ refl tt))
      0 1 (λ e. cc e) refl

-- The child does not answer, and is stopped.
abbrev ensuring : Ensuring
ensuring = record {
  makes_dir = true;
  lock = ok tt;
  probe = err no_daemon;
  remove = removed;
  spawning = record {
    finds_binary = true;
    opens_log = true;
    starts = some (pos 7);
    releases = true;
  };
  ready = err timed_out;
  log = codes "no such directory";
}

ensure_running-Settles_example : Settles ensuring [] (ensure_running ensuring)
ensure_running-Settles_example = ensure_running-Settles ensuring
