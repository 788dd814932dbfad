-- ===== src/Examples/Fixtures.antt =====
-- The data of the examples.
use sonata.Prelude.{true, false, none, some, [], ◌∷◌, Text, codes, arith}
use sonata.Prelude.Int.{pos}
use sonata.Store.Types.{pending, number, Message, Delivery, ActionRow, Db, Env}
use sonata.Store.Soundness.{IsSound}
use sonata.Workflow.Definition.{Action, SubprocessInstructions, actor_subprocess}
use sonata.Workflow.Cel.{bool_type, bool_value, Cel}
use sonata.Scheduler.Config.{Config}
use sonata.Scheduler.State.{ActionInfo, SchedEnv, World}

abbrev pub orders : Text
orders = codes "orders"

abbrev pub ship : Text
ship = codes "ship"

abbrev pub store_env : Env
store_env = record {
  commits = λ n. true;
  decode_subscription = λ text. some (record { queue = orders; correlate_on = [] } ∷ []);
}

-- A store on which no transaction commits, as on a full disk.
abbrev pub full_disk : Env
full_disk = record store_env { commits = λ n. false }

abbrev pub ship_action : Action
ship_action = record {
  name = ship;
  inputs = record { queue = orders; filter = []; correlate_on = [] } ∷ [];
  actor = actor_subprocess;
  instructions = codes "{}";
  output = [];
  concurrency = none;
  max_attempts = none;
  join_timeout = none;
}

abbrev pub config : Config
config = record {
  max_hops = pos 100;
  default_max_attempts = pos 3;
  default_task_timeout = pos 300000000000;
  backoff_base = pos 1000000000;
  backoff_cap = pos 60000000000;
  stdout_cap = pos 4194304;
}

abbrev pub cel : Cel
cel = record {
  check = λ source. some bool_type;
  program = λ source. true;
  eval = λ source input. some (bool_value true);
  decodes = λ payload. true;
}

abbrev pub instructions : SubprocessInstructions
instructions = record { command = codes "true" ∷ []; timeout = none }

abbrev pub sched_env : SchedEnv
sched_env = record {
  config = config;
  store_env = store_env;
  cel = cel;
  valid_json = λ text. true;
  decode_action = λ text. some ship_action;
  decode_instructions = λ text. some instructions;
  reads = λ name now writes. true;
}

abbrev pub ship_row : ActionRow
ship_row = record {
  name = ship;
  version = 1;
  definition = codes "v1";
  enabled = true;
  created_at = 0;
}

abbrev pub fresh_db : Db
fresh_db = record { messages = []; actions = ship_row ∷ []; deliveries = []; next_id = 1 }

abbrev pub fresh : World
fresh = record {
  store = record { db = fresh_db; writes = 0 };
  active = pos 0;
  inflight = [];
  cache = [];
  launched = [];
}

pub fresh-IsSound : IsSound fresh_db
fresh-IsSound = record { rows = tt; unique = tt; below = tt }

-- A message of the queue and its delivery.
abbrev pub order : Message
order = record {
  id = 1;
  queue = orders;
  payload = codes "{}";
  headers = (codes "hops", number (pos 0)) ∷ [];
  trace_id = 2;
  origin_action = none;
  origin_action_version = none;
  origin_message_id = none;
  created_at = 0;
}

abbrev pub waiting_order : Delivery
waiting_order = record {
  id = 3;
  message_id = some 1;
  action_name = ship;
  action_version = none;
  state = pending;
  attempt = 0;
  not_before = none;
  pgid = none;
  stderr_tail = none;
  error = none;
  claimed_at = none;
  completed_at = none;
}

abbrev pub one_waiting : Db
one_waiting = record {
  messages = order ∷ [];
  actions = ship_row ∷ [];
  deliveries = waiting_order ∷ [];
  next_id = 4;
}

abbrev pub ship_info : ActionInfo
ship_info = record {
  name = ship;
  version = 1;
  def = ship_action;
  subprocess = some instructions;
  concurrency = pos 1;
  max_attempts = pos 3;
  timeout = pos 300000000000;
}

pub one_waiting-IsSound : IsSound one_waiting
one_waiting-IsSound = record {
  rows = (ground arith, tt);
  unique = ground arith;
  below = (omega arith, tt);
}
