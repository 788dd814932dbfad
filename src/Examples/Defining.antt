-- ===== src/Examples/Defining.antt =====
-- Definitions that are validated, parsed, applied and disabled.
use sonata.Prelude.{
  ℕ, suc, ◌≡◌, ◌↔◌, refl, Bool, true, false, Option, none, some, List, [], ◌∷◌, Text, codes, same,
  same→eq, All, Result, ok, err, if◌then◌else◌, Bool-cases, inl, inr, any, update,
}
use sonata.Store.Types.{ActionRow, Store, action_disabled}
use sonata.Store.Deliveries.{cancellable, cancel_row}
use sonata.Workflow.Definition.{Action, SubprocessInstructions}
use sonata.Workflow.Cel.{Cel, dyn_type}
use sonata.Workflow.Validate.{Instructions, correlates, validate, partial_join}
use sonata.Workflow.Validate.Valid.{IsValid}
use sonata.Workflow.Validate.Accepting.{validate-IsValid}
use sonata.Workflow.Parse.{Codec, with_instructions, parse_json, canonical}
use sonata.Workflow.Parse.Canonical.{parse_json-canonical}
use sonata.Store.Actions.{apply_action}
use sonata.Api.Actions.{apply_reply}
use sonata.Cli.Requests.{file, parse_source, parse_apply}
use sonata.Cli.Applying.{parse_apply-registers}
use sonata.Scheduler.State.{World}
use sonata.Api.Actions.{ApplyActionResponse, action_apply, set_enabled}
use sonata.Api.Actions.Applying.{action_apply-again}
use sonata.Api.Actions.Disabling.{set_enabled-cancels}
use sonata.Examples.Fixtures.{
  cel, store_env, sched_env, ship, ship_action, ship_row, instructions, fresh, one_waiting, orders,
}

abbrev join_cel : Cel
join_cel = record cel { check = λ source. some dyn_type }

abbrev pub no_command : SubprocessInstructions
no_command = record { command = []; timeout = none }

abbrev pub blocks : Instructions
blocks raw = some (if same raw (codes "null") then no_command else instructions, false)

abbrev join_action : Action
join_action = record ship_action {
  inputs =
      record { queue = orders; filter = []; correlate_on = codes "payload.id" }
      ∷ record { queue = codes "payments"; filter = []; correlate_on = codes "payload.order" }
      ∷ [];
}

join_action_accepted : validate join_cel blocks join_action ≡ ok tt
unfolding validate sonata.Prelude.is_empty sonata.Workflow.Names.match_string same
    sonata.Prelude.Spaces.trim_space sonata.Prelude.Spaces.is_space sonata.Workflow.Cel.compile
join_action_accepted = refl

-- A join of one input and a plain one.
partial_join_refused :
    validate join_cel blocks (record join_action {
      inputs =
          record { queue = orders; filter = []; correlate_on = codes "payload.id" }
          ∷ record { queue = codes "payments"; filter = []; correlate_on = [] }
          ∷ [];
    })
    ≡ err partial_join
unfolding validate sonata.Prelude.is_empty sonata.Workflow.Names.match_string same
partial_join_refused = refl

validate-IsValid_example :
    (validate join_cel blocks join_action ≡ ok tt) ↔ IsValid join_cel blocks join_action
validate-IsValid_example = validate-IsValid join_cel blocks join_action

abbrev pub document : Text
document = codes "{name: ship}"

-- A codec that knows one definition, whose instructions every value is printed as.
abbrev pub codec : Codec Text Text
codec = record {
  decode_action = λ raw. if same raw document then some (ship_action, false) else none;
  decode_instructions = blocks;
  unmarshal = λ raw. some raw;
  marshal = λ v. some (codes "{}");
  marshal_action = λ a. some document;
  unmarshal_yaml = λ raw. some raw;
  is_null = λ doc. false;
  marshal_document = λ doc. some doc;
}

codec_reads_back :
    (raw norm c : Text) (a : Action) (v : Text)
    → codec.decode_action raw ≡ some (a, false)
    → codec.marshal v ≡ some norm
    → codec.marshal_action (with_instructions codec norm a) ≡ some c
    → codec.decode_action c ≡ some (with_instructions codec norm a, false)
unfolding same
codec_reads_back raw norm c a v d m e = elim (Bool-cases (same raw document)) [
  | inl h ↦
      let one : ship_action ≡ a = cc ((rw h at d)) in
      let norms : codes "{}" ≡ norm = cc m in
      let texts : document ≡ c = cc e in cc (one, norms, texts)
  | inr h ↦ cc ((rw h at d))
]

parsed : parse_json codec cel document ≡ ok ship_action
unfolding parse_json sonata.Workflow.Validate.strict_unmarshal same sonata.Prelude.is_empty validate
    sonata.Workflow.Names.match_string sonata.Prelude.Spaces.trim_space
    sonata.Prelude.Spaces.is_space sonata.Workflow.Cel.compile
parsed = refl

parse_json-canonical_example : parse_json codec cel document ≡ ok ship_action
unfolding same canonical
parse_json-canonical_example =
    parse_json-canonical codec cel codec_reads_back (λ v norm e. (norm, refl, e)) refl document
      document ship_action parsed refl

abbrev first_reply : ApplyActionResponse
first_reply = record { name = ship; version = 2; changed = true; enabled = true }

abbrev applied_store : Store
applied_store = (action_apply codec cel store_env document 7 fresh.store).1

applied : action_apply codec cel store_env document 7 fresh.store ≡ (ok first_reply, applied_store)
unfolding action_apply sonata.Prelude.is_empty same parse_json
    sonata.Workflow.Validate.strict_unmarshal validate sonata.Workflow.Names.match_string
    sonata.Prelude.Spaces.trim_space sonata.Prelude.Spaces.is_space sonata.Workflow.Cel.compile
    sonata.Store.Actions.apply_action
applied = refl

action_apply-again_example : action_apply codec cel store_env document 8 applied_store ≡ (
  ok (record first_reply { changed = false }),
  record applied_store { writes = suc applied_store.writes },
)
action_apply-again_example =
    action_apply-again codec cel store_env document 7 8 fresh.store applied_store first_reply
      applied refl

abbrev waiting_world : World
waiting_world = record fresh { store = record { db = one_waiting; writes = 0 } }

abbrev disabled_world : World
disabled_world = (set_enabled sched_env ship false 9 waiting_world).1

abbrev disabled_row : ActionRow
disabled_row = record ship_row { enabled = false }

disabled : set_enabled sched_env ship false 9 waiting_world ≡ (ok disabled_row, disabled_world)
unfolding set_enabled sonata.Prelude.is_empty sonata.Store.Actions.set_action_enabled same update
    sonata.Scheduler.Apply.handle_ctrl sonata.Store.Deliveries.cancel_deliveries
disabled = refl

set_enabled-cancels_example :
    (disabled_row.name ≡ ship)
    × (disabled_row.enabled ≡ false)
    × (disabled_world.store.db.deliveries
        ≡ update (cancellable ship) (cancel_row action_disabled 9) one_waiting.deliveries)
    × (any (cancellable ship) disabled_world.store.db.deliveries ≡ false)
set_enabled-cancels_example =
    set_enabled-cancels sched_env ship 9 waiting_world disabled_world disabled_row disabled

sent : parse_apply codec cel (file (some document)) ≡ ok document
unfolding parse_apply parse_json validate same sonata.Workflow.Validate.strict_unmarshal
    sonata.Prelude.is_empty sonata.Workflow.Names.match_string sonata.Prelude.Spaces.trim_space
    sonata.Prelude.Spaces.is_space sonata.Workflow.Cel.compile
sent = refl

parse_apply-registers_example :
    (a : Action) × (parse_source codec cel (file (some document)) ≡ ok a)
    × (action_apply codec cel store_env document 7 fresh.store
        ≡ apply_reply (apply_action store_env a.name document 7 fresh.store))
unfolding same
parse_apply-registers_example =
    parse_apply-registers codec cel codec_reads_back (λ v norm e. (norm, refl, e)) refl
      (λ a c e. (codes "name: ship}", cc e)) (file (some document)) document store_env 7 fresh.store
      sent
