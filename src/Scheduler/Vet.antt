-- ===== src/Scheduler/Vet.antt =====
-- internal/scheduler/scheduler.go: the decisions before an execution.
use sonata.Prelude.{
  ℕ, zero, suc, Bool, true, false, not, Option, none, some, List, [], ◌∷◌, Text, Result, ok, err,
  if◌then◌else◌,
}
use sonata.Prelude.Int.{ℤ, negsuc, ltb_ℤ}
use sonata.Store.Types.{
  State, dead, filtered, cancelled, Reason, no_reason, superseded, bad_headers, hop_limit_exceeded,
  compile_filter, filter_input, bad_filter, Message, Store, StoreError,
}
use sonata.Store.Deliveries.{resolve_delivery}
use sonata.Store.Queries.{Work}
use sonata.Workflow.Cel.{
  Cel, Cache, Compiled, CompileError, Activation, EvalError, new_activation, eval_filter, get,
}
use sonata.Scheduler.Headers.{message_hops, input_index}
use sonata.Scheduler.State.{ActionInfo, SchedEnv, World, add_active}

-- To run the delivery, or to resolve it at once.
pub data Verdict : Type 0 where
  run : Verdict
  settle : State → Reason → Verdict

-- `compiled.Filters[idx]`.
unfoldable pub filter_at : List (Option Text) → ℕ → Option Text
filter_at [] i = none
filter_at (f ∷ fs) zero = f
filter_at (f ∷ fs) (suc i) = filter_at fs i

unfoldable pub of_filter : Result EvalError Bool → Verdict
of_filter (ok true) = run
of_filter (ok false) = settle filtered no_reason
of_filter (err e) = settle dead bad_filter

unfoldable pub of_activation : Cel → Option Text → Result EvalError Activation → Verdict
unfolding of_filter
of_activation cel prg (ok act) = of_filter (eval_filter cel prg act)
of_activation cel prg (err e) = settle dead filter_input

unfoldable pub activation : Cel → Message → Result EvalError Activation
activation cel m = new_activation cel m.payload m.headers m.queue m.trace_id

unfoldable pub of_compiled : Cel → Message → ℕ → Result CompileError Compiled → Verdict
unfolding of_activation activation
of_compiled cel m i (ok c) = of_activation cel (filter_at c.filters i) (activation cel m)
of_compiled cel m i (err e) = settle dead compile_filter

unfoldable pub of_hops : SchedEnv → ActionInfo → Message → ℕ → Cache → Option ℤ → Verdict × Cache
unfolding of_compiled
of_hops env ai m i cache none = (settle dead bad_headers, cache)
of_hops env ai m i cache (some hops) =
    if not (ltb_ℤ hops env.config.max_hops)
    then (settle dead hop_limit_exceeded, cache)
    else (let (c, cache') = get env.cel ai.name ai.version ai.def cache in
        (of_compiled env.cel m i c, cache'))

unfoldable pub of_index : SchedEnv → ActionInfo → Message → Cache → Option ℕ → Verdict × Cache
unfolding of_hops
of_index env ai m cache none = (settle cancelled (superseded ai.version), cache)
of_index env ai m cache (some i) = of_hops env ai m i cache (message_hops m.headers)

-- The decisions of vet, in order.
unfoldable pub verdict : SchedEnv → ActionInfo → Message → Cache → Verdict × Cache
unfolding of_index
verdict env ai m cache = of_index env ai m cache (input_index ai.def m.queue)

unfoldable pub resolved : Result StoreError (Unit {0}) × Store → World → World
resolved (ok u, s) w = add_active (negsuc 0) (record w { store = s })
resolved (err e, s) w = record w { store = s }

-- resolve: the counter goes down only when the write succeeds.
unfoldable pub resolve : SchedEnv → ℕ → State → Reason → ℕ → World → World
unfolding resolved
resolve env id state reason now w =
    resolved (resolve_delivery env.store_env id state reason now w.store) w

unfoldable pub vetted : SchedEnv → ℕ → ℕ → Verdict → World → Bool × World
vetted env id now run w = (true, w)
vetted env id now (settle state reason) w = (false, resolve env id state reason now w)

-- vet: whether to run the delivery.
unfoldable pub vet : SchedEnv → ActionInfo → Work → ℕ → World → Bool × World
unfolding vetted
vet env ai work now w =
    let (v, cache) = verdict env ai work.message w.cache in
    vetted env work.delivery.id now v (record w { cache = cache })
