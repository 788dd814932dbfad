-- ===== src/Daemon/Draining.antt =====
-- drain of internal/scheduler/scheduler.go, as the last steps of the daemon.
use sonata.Prelude.{
  ℕ, suc, ◌≡◌, refl, ap, ◌∙◌, Bool, true, false, some, List, [], ◌∷◌, Text, same, length, arith,
  Result, ok, err, Bool-cases, inl, inr,
}
use sonata.Prelude.Int.{ℤ, pos, negsuc, ltb_ℤ, ◌+ℤ◌, +ℤ_parts, eq_of_parts}
use sonata.Store.Types.{Reason, Store, StoreError}
use sonata.Scheduler.State.{Launch, SchedEnv, World, Inflight, total, add_running}
use sonata.Scheduler.Apply.{record_outcome, after_complete, after_fail, exhausted, apply}
use sonata.Scheduler.Drain.{Arrival, arrive, drain}
use sonata.Daemon.Steps.{Daemon, Step, applying, Reach, here, next}

swap : (k d t : ℤ) → (k +ℤ d) +ℤ t ≡ (k +ℤ t) +ℤ d
swap k d t =
    let a = +ℤ_parts k d in
    let b = +ℤ_parts (k +ℤ d) t in
    let c = +ℤ_parts k t in
    let e = +ℤ_parts (k +ℤ t) d in
    eq_of_parts ((k +ℤ d) +ℤ t) ((k +ℤ t) +ℤ d) (omega (arith, a, b, c, e))

reassociate : (k t d : ℤ) → k +ℤ (t +ℤ d) ≡ (k +ℤ t) +ℤ d
reassociate k t d =
    let a = +ℤ_parts t d in
    let b = +ℤ_parts k (t +ℤ d) in
    let c = +ℤ_parts k t in
    let e = +ℤ_parts (k +ℤ t) d in
    eq_of_parts (k +ℤ (t +ℤ d)) ((k +ℤ t) +ℤ d) (omega (arith, a, b, c, e))

total-add_running :
    (name : Text) (d : ℤ) (inflight : Inflight)
    → total (add_running name d inflight) ≡ total inflight +ℤ d
unfolding total add_running
total-add_running name d [] =
    let l = +ℤ_parts d (pos 0) in
    let r = +ℤ_parts (pos 0) d in eq_of_parts (d +ℤ pos 0) (pos 0 +ℤ d) (omega (arith, l, r))
total-add_running name d ((n, k) ∷ rest) = elim (Bool-cases (same n name)) [
  | inl e ↦ rw e (swap k d (total rest))
  | inr e ↦ rw (e, total-add_running name d rest) (reassociate k (total rest) d)
]

after_complete-inflight :
    (r : Result StoreError ℕ × Store) (w : World) → (after_complete r w).inflight ≡ w.inflight
unfolding after_complete
after_complete-inflight (ok n, s) w = refl
after_complete-inflight (err e, s) w = refl

after_fail-inflight :
    (b : Bool) (r : Result StoreError (Unit {0}) × Store) (w : World)
    → (after_fail b r w).inflight ≡ w.inflight
unfolding after_fail
after_fail-inflight true (ok u, s) w = refl
after_fail-inflight false (ok u, s) w = refl
after_fail-inflight b (err e, s) w = refl

record_outcome-inflight :
    (env : SchedEnv) (r : Launch) (tail : Text) (now jitter : ℕ) (o : Result Reason (List Text))
    (w : World)
    → (record_outcome env r tail now jitter o w).inflight ≡ w.inflight
unfolding record_outcome
record_outcome-inflight env r tail now jitter (ok lines) w = after_complete-inflight _ _
record_outcome-inflight env r tail now jitter (err why) w = after_fail-inflight (exhausted r) _ w

-- An outcome that is applied leaves one execution less in flight.
total-arrive :
    (env : SchedEnv) (a : Arrival) (w : World)
    → total (arrive env a w).inflight ≡ total w.inflight +ℤ negsuc 0
unfolding apply
total-arrive env a w =
    ap total (record_outcome-inflight env a.launch a.result.stderr_tail a.now a.jitter _ _)
    ∙ total-add_running a.launch.action.name (negsuc 0) w.inflight

one_less : (n : ℕ) → pos (suc n) +ℤ negsuc 0 ≡ pos n
one_less n =
    let parts = +ℤ_parts (pos (suc n)) (negsuc 0) in
    eq_of_parts (pos (suc n) +ℤ negsuc 0) (pos n) (omega (arith, parts))

some_left : (n : ℕ) → ltb_ℤ (pos 0) (pos (suc n)) ≡ true
some_left n = ground arith

drain_more :
    (env : SchedEnv) (a : Arrival) (arrivals : List Arrival) (w : World)
    → ltb_ℤ (pos 0) (total w.inflight) ≡ true
    → drain env (a ∷ arrivals) w ≡ drain env arrivals (arrive env a w)
unfolding drain
drain_more env a arrivals w e = rw e refl

Reach-then : (env : SchedEnv) {d e f : Daemon} → Step env d e → Reach env e f → Reach env d f
Reach-then env s here = next here s
Reach-then env s (next r t) = next (Reach-then env s r) t

-- Where as many executions are in flight as outcomes arrive, drain ends with none in flight, and it
-- has only taken steps of the daemon.
pub drain-Reach :
    (env : SchedEnv) (arrivals : List Arrival) (d : Daemon)
    → total d.world.inflight ≡ pos (length arrivals)
    → (w : World) × (drain env arrivals d.world ≡ some w)
      × (total w.inflight ≡ pos 0)
      × Reach env d (record d { world = w })
unfolding drain
drain-Reach env [] d e = (d.world, rw e refl, e, here)
drain-Reach env (a ∷ arrivals) d e =
    let less = total-arrive env a d.world in
    let left : total (arrive env a d.world).inflight ≡ pos (length arrivals) =
      less ∙ ap (λ t. t +ℤ negsuc 0) e ∙ one_less (length arrivals) in
    let (w, drained, none_left, r) =
      drain-Reach env arrivals (record d { world = arrive env a d.world }) left in
    (
      w,
      drain_more env a arrivals d.world (ap (ltb_ℤ (pos 0)) e ∙ some_left (length arrivals))
          ∙ drained,
      none_left,
      Reach-then env (applying a.launch a.result a.now a.jitter) r,
    )
