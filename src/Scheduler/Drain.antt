-- ===== src/Scheduler/Drain.antt =====
-- internal/scheduler/scheduler.go: drain, at the end of Run. `none` is a wait for an outcome that
-- never comes.
use sonata.Prelude.{ℕ, Option, none, some, List, [], ◌∷◌, if◌then◌else◌}
use sonata.Prelude.Int.{pos, ltb_ℤ}
use sonata.Scheduler.State.{Launch, ExecResult, SchedEnv, World, total}
use sonata.Scheduler.Apply.{apply}

-- What a worker sends back, with the clock and the draw of the jitter when it is applied.
pub record Arrival : Type 0 where
  pub launch : Launch
  pub result : ExecResult
  pub now : ℕ
  pub jitter : ℕ

abbrev pub arrive : SchedEnv → Arrival → World → World
arrive env a w = apply env a.launch a.result a.now a.jitter w

unfoldable pub drain : SchedEnv → List Arrival → World → Option World
unfolding total
drain env [] w = if ltb_ℤ (pos 0) (total w.inflight) then none else some w
drain env (a ∷ arrivals) w =
    let rest = drain env arrivals (arrive env a w) in
    if ltb_ℤ (pos 0) (total w.inflight) then rest else some w
