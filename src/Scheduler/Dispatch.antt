-- ===== src/Scheduler/Dispatch.antt =====
-- internal/scheduler/scheduler.go: loadActions and dispatch.
-- The two loops over an action's deliveries run on fuel; `none` is running out of it.
use sonata.Prelude.{
  ℕ, zero, suc, ◌+◌, Bool, true, false, Option, none, some, List, [], ◌∷◌, Text, same, Result, ok,
  err, if◌then◌else◌,
}
use sonata.Prelude.Int.{pos, negsuc, ltb_ℤ}
use sonata.Store.Types.{cancelled, superseded, ActionRow, Store, StoreError}
use sonata.Store.Deliveries.{resolve_delivery, claim_delivery}
use sonata.Store.Actions.{list_actions}
use sonata.Store.Queries.{Work, next_eligible}
use sonata.Workflow.Definition.{
  Action, SubprocessInstructions, actor_subprocess, is_join, concurrency_or_default, or_default,
}
use sonata.Scheduler.State.{ActionInfo, SchedEnv, World, running_of, add_running, add_active}
use sonata.Scheduler.Vet.{vet}

unfoldable pub with_instructions : ActionInfo → Option SubprocessInstructions → Option ActionInfo
with_instructions ai none = none
with_instructions ai (some si) =
    some (record ai { subprocess = some si; timeout = or_default si.timeout ai.timeout })

unfoldable pub info : SchedEnv → ActionRow → Action → Option ActionInfo
unfolding with_instructions
info env row def =
    let ai : ActionInfo = record {
      name = row.name;
      version = row.version;
      def = def;
      subprocess = none;
      concurrency = concurrency_or_default def;
      max_attempts = or_default def.max_attempts env.config.default_max_attempts;
      timeout = env.config.default_task_timeout;
    } in
    if same def.actor actor_subprocess
    then with_instructions ai (env.decode_instructions def.instructions)
    else some ai

unfoldable pub decode_row : SchedEnv → ActionRow → Option Action → Option ActionInfo
unfolding info
decode_row env row none = none
decode_row env row (some def) = info env row def

unfoldable pub push : Option ActionInfo → List ActionInfo → List ActionInfo
push none rest = rest
push (some ai) rest = ai ∷ rest

unfoldable pub decode_rows : SchedEnv → List ActionRow → List ActionInfo
unfolding decode_row push
decode_rows env [] = []
decode_rows env (row ∷ rows) =
    let rest = decode_rows env rows in
    if row.enabled then push (decode_row env row (env.decode_action row.definition)) rest else rest

-- loadActions: the enabled current versions that decode.
unfoldable pub load_actions : SchedEnv → World → List ActionInfo
unfolding decode_rows
load_actions env w = decode_rows env (list_actions w.store.db)

-- One round of a loop: it breaks, or it goes on.
pub data Round : Type 0 where
  halt : World → Round
  more : World → Round

-- launch, with the attempt of the claim mirrored in the work.
abbrev pub launch : ActionInfo → Work → World → World
launch ai work w = record w {
  inflight = add_running ai.name (pos 1) w.inflight;
  launched =
      record {
        work = record work {
          delivery = record work.delivery { attempt = work.delivery.attempt + 1 };
        };
        action = ai;
      }
      ∷ w.launched;
}

unfoldable pub claimed_round :
    ActionInfo → Work → Result StoreError (Unit {0}) × Store → World → Round
claimed_round ai work (ok u, s) w = more (launch ai work (record w { store = s }))
claimed_round ai work (err e, s) w = halt (record w { store = s })

unfoldable pub vetted_round : SchedEnv → ActionInfo → Work → ℕ → Bool × World → Round
unfolding claimed_round
vetted_round env ai work now (false, w) = more w
vetted_round env ai work now (true, w) =
    claimed_round ai work (claim_delivery env.store_env work.delivery.id ai.version now w.store) w

unfoldable pub eligible_round : SchedEnv → ActionInfo → ℕ → World → Option Work → Round
unfolding vetted_round
eligible_round env ai now w none = halt w
eligible_round env ai now w (some work) = vetted_round env ai work now (vet env ai work now w)

-- NextEligible, whose error breaks both loops as ErrNotFound does.
unfoldable pub next_work : SchedEnv → Text → ℕ → World → Option Work
next_work env name now w =
    if env.reads name now w.store.writes then next_eligible name now w.store.db else none

-- A round of the inner loop of dispatch.
unfoldable pub round : SchedEnv → ActionInfo → ℕ → World → Round
unfolding eligible_round next_work
round env ai now w =
    if ltb_ℤ (running_of ai.name w.inflight) ai.concurrency
    then eligible_round env ai now w (next_work env ai.name now w)
    else halt w

unfoldable pub cancelled_round : Result StoreError (Unit {0}) × Store → World → Round
cancelled_round (ok u, s) w = more (add_active (negsuc 0) (record w { store = s }))
cancelled_round (err e, s) w = halt (record w { store = s })

unfoldable pub cancel_next : SchedEnv → ActionInfo → ℕ → World → Option Work → Round
unfolding cancelled_round
cancel_next env ai now w none = halt w
cancel_next env ai now w (some work) =
    cancelled_round
      (resolve_delivery env.store_env work.delivery.id cancelled (superseded ai.version) now
        w.store)
      w

-- A round of cancelSuperseded.
unfoldable pub cancel_round : SchedEnv → ActionInfo → ℕ → World → Round
unfolding cancel_next next_work
cancel_round env ai now w = cancel_next env ai now w (next_work env ai.name now w)

-- A join is not executed: its deliveries are resolved.
unfoldable pub action_round : SchedEnv → ActionInfo → ℕ → World → Round
unfolding round cancel_round
action_round env ai now w = if is_join ai.def then cancel_round env ai now w else round env ai now w

unfoldable pub after_round : Round → (World → Option World) → Option World
after_round (halt w) again = some w
after_round (more w) again = again w

unfoldable pub rounds : SchedEnv → ActionInfo → ℕ → ℕ → World → Option World
unfolding action_round after_round
rounds env ai now zero w = none
rounds env ai now (suc fuel) w = after_round (action_round env ai now w) (rounds env ai now fuel)

unfoldable pub and_then : Option World → (World → Option World) → Option World
and_then none next = none
and_then (some w) next = next w

-- The loop of dispatch over the actions.
unfoldable pub dispatch_all : SchedEnv → ℕ → ℕ → List ActionInfo → World → Option World
unfolding rounds and_then
dispatch_all env now fuel [] w = some w
dispatch_all env now fuel (ai ∷ rest) w =
    and_then (rounds env ai now fuel w) (dispatch_all env now fuel rest)

unfoldable pub dispatch : SchedEnv → ℕ → ℕ → World → Option World
unfolding dispatch_all load_actions
dispatch env now fuel w = dispatch_all env now fuel (load_actions env w) w
