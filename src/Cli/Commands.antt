-- ===== src/Cli/Commands.antt =====
-- internal/cli: the data commands of send.go, message.go, queue.go, action.go and delivery.go.
use sonata.Prelude.{true, false, Bool, Option, List, Text, codes}
use sonata.Prelude.Int.{ℤ}
use sonata.Store.Queries.{ListOptions, DeliveryListOptions}
use sonata.Workflow.Cel.{Cel}
use sonata.Workflow.Parse.{Codec}
use sonata.Api.Client.{Client}
use sonata.Cli.{Format}
use sonata.Cli.Requests.{
  Ran, Ensured, prepared, request, show_list, show_line, show_document, parse_send, Source,
  parse_apply, parse_version,
}

-- The commands, with their arguments and what they read.
pub data Command : Type 0 where
  sends : Text → Option Text → List Text → Command
  lists_messages : ListOptions → Command
  shows_message : Text → Command
  lists_queues : Command
  applies_action : Source → Command
  lists_actions : Command
  shows_action : Text → ℤ → Command
  sets_enabled : Text → Bool → Command
  lists_deliveries : DeliveryListOptions → Command
  shows_delivery : Text → Command
  replays_delivery : Text → Command

unfoldable pub enable_endpoint : Bool → Text
enable_endpoint true = codes "action.enable"
enable_endpoint false = codes "action.disable"

-- What the process meets: JSON validity and quoting, the checks of a definition, EnsureRunning, the
-- output format and whether the output can be written.
pub record Shell : Type 0 where
  pub valid : Text → Bool
  pub quote : Text → Text
  pub cel : Cel
  pub ensured : Ensured
  pub client : Client
  pub format : Format
  pub writes : Bool

module _ {Value Document : Type 0} (codec : Codec Value Document) (sh : Shell) where
  open sh use {valid, quote, cel, ensured, client, format, writes}

  unfoldable pub send : Text → Option Text → List Text → Ran
  unfolding prepared request show_line parse_send
  send queue input flags = prepared (parse_send valid quote queue input flags) λ req.
      request (codes "message.send") ensured (client.send_message req) (show_line format writes)

  unfoldable pub message_list : ListOptions → Ran
  unfolding request show_list
  message_list options =
      request (codes "message.list") ensured (client.list_messages options)
        (show_list format writes)

  unfoldable pub message_show : Text → Ran
  unfolding request show_document
  message_show id =
      request (codes "message.show") ensured (client.show_message id) (show_document writes)

  unfoldable pub queue_list : Ran
  unfolding request show_list
  queue_list = request (codes "queue.list") ensured client.list_queues (show_list format writes)

  unfoldable pub action_apply : Source → Ran
  unfolding prepared request show_line parse_apply
  action_apply source = prepared (parse_apply codec cel source) λ definition.
      request (codes "action.apply") ensured (client.apply_action definition)
        (show_line format writes)

  unfoldable pub action_list : Ran
  unfolding request show_list
  action_list = request (codes "action.list") ensured client.list_actions (show_list format writes)

  unfoldable pub action_show : Text → ℤ → Ran
  unfolding prepared request show_document parse_version
  action_show name version =
      prepared (parse_version version) λ v.
        request (codes "action.show") ensured (client.show_action name v) (show_document writes)

  unfoldable pub action_set_enabled : Text → Bool → Ran
  unfolding request show_line enable_endpoint
  action_set_enabled name enabled =
      request (enable_endpoint enabled) ensured (client.set_action_enabled name enabled)
        (show_line format writes)

  unfoldable pub delivery_list : DeliveryListOptions → Ran
  unfolding request show_list
  delivery_list options =
      request (codes "delivery.list") ensured (client.list_deliveries options)
        (show_list format writes)

  unfoldable pub delivery_show : Text → Ran
  unfolding request show_document
  delivery_show id =
      request (codes "delivery.show") ensured (client.show_delivery id) (show_document writes)

  unfoldable pub delivery_replay : Text → Ran
  unfolding request show_line
  delivery_replay id =
      request (codes "delivery.replay") ensured (client.replay_delivery id)
        (show_line format writes)

  -- The data commands of the root command.
  unfoldable pub run_command : Command → Ran
  unfolding send message_list message_show queue_list action_apply action_list action_show
      action_set_enabled delivery_list delivery_show delivery_replay
  run_command (sends queue input flags) = send queue input flags
  run_command (lists_messages options) = message_list options
  run_command (shows_message id) = message_show id
  run_command lists_queues = queue_list
  run_command (applies_action source) = action_apply source
  run_command lists_actions = action_list
  run_command (shows_action name version) = action_show name version
  run_command (sets_enabled name enabled) = action_set_enabled name enabled
  run_command (lists_deliveries options) = delivery_list options
  run_command (shows_delivery id) = delivery_show id
  run_command (replays_delivery id) = delivery_replay id
