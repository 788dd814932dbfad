-- ===== src/Cli/Exits.antt =====
-- internal/cli: the exit codes of the data commands, and what the commands have done by then.
use sonata.Prelude.{
  Bool, true, false, List, [], ◌∷◌, Text, Result, ok, err, ◌>>=◌, ◌≡◌, refl, ◌⊎◌, inl, inr,
}
use sonata.Workflow.Parse.{Codec}
use sonata.Api.Transport.{ClientError}
use sonata.Api.Client.{Health}
use sonata.Cli.{CmdError, execute, Format, table, json, write_json, flush}
use sonata.Cli.Lifecycle.{operational, ensure_client}
use sonata.Cli.Requests.{
  ensures, calls, Ran, Ensured, prepared, after_ensure, request, show_list, show_line,
  show_document, parse_send, parse_apply, parse_version,
}
use sonata.Cli.Refusing.{Refuses, parse_send-Refuses, parse_apply-Refuses, parse_version-Refuses}
use sonata.Cli.Commands.{
  Command, sends, lists_messages, shows_message, lists_queues, applies_action, lists_actions,
  shows_action, sets_enabled, lists_deliveries, shows_delivery, replays_delivery, Shell,
  run_command,
}

-- The exit code of success, or of an operational error.
abbrev Ends03 : Result CmdError (Unit {0}) → Type 0
Ends03 r = (execute r ≡ 0) ⊎ (execute r ≡ 3)

-- By its exit code, what a command has done: on success the daemon was ensured and one endpoint
-- called, and on a usage error nothing.
abbrev pub Exits : Ensured → Ran → Type 0
Exits ensured (contacts, r) =
    ((execute r ≡ 0)
      × ((endpoint : Text) × (contacts ≡ ensures ∷ calls endpoint ∷ []))
      × ((h : Health × Bool) × (ensured ≡ ok h)))
    ⊎ (((execute r ≡ 2) × (contacts ≡ [])) ⊎ (execute r ≡ 3))

write_json-Ends03 : (writes : Bool) → Ends03 (write_json writes)
unfolding write_json execute
write_json-Ends03 true = inl refl
write_json-Ends03 false = inr refl

flush-Ends03 : (writes : Bool) → Ends03 (flush writes)
unfolding flush execute
flush-Ends03 true = inl refl
flush-Ends03 false = inr refl

show_list-Ends03 :
    {A : Type 0} (format : Format) (writes : Bool) (rows : List A)
    → Ends03 (show_list format writes rows)
unfolding show_list execute
show_list-Ends03 json writes rows = write_json-Ends03 writes
show_list-Ends03 table writes [] = inl refl
show_list-Ends03 table writes (r ∷ rows) = flush-Ends03 writes

show_line-Ends03 :
    {A : Type 0} (format : Format) (writes : Bool) (a : A) → Ends03 (show_line format writes a)
unfolding show_line execute
show_line-Ends03 json writes a = write_json-Ends03 writes
show_line-Ends03 table writes a = inl refl

module _ {Resp : Type 0} where
  answered-Ends03 :
      (answer : Result ClientError Resp) (show : Resp → Result CmdError (Unit {0}))
      → ((r : Resp) → Ends03 (show r))
      → Ends03 (operational answer >>= show)
  unfolding operational execute
  answered-Ends03 (ok r) show h = h r
  answered-Ends03 (err e) show h = inr refl

  request-Exits :
      (endpoint : Text) (ensured : Ensured) (answer : Result ClientError Resp)
      (show : Resp → Result CmdError (Unit {0}))
      → ((r : Resp) → Ends03 (show r))
      → Exits ensured (request endpoint ensured answer show)
  unfolding request ensure_client after_ensure operational execute
  request-Exits endpoint (err e) answer show h = inr (inr refl)
  request-Exits endpoint (ok found) answer show h = elim (answered-Ends03 answer show h) [
    | inl zero_code ↦ inl (zero_code, (endpoint, refl), (found, refl))
    | inr code ↦ inr (inr code)
  ]

prepared-Exits {ℓ} :
    {Req : Type ℓ} (ensured : Ensured) (m : Result CmdError Req) (rest : Req → Ran)
    → Refuses m
    → ((req : Req) → Exits ensured (rest req))
    → Exits ensured (prepared m rest)
unfolding prepared
prepared-Exits ensured (ok req) rest h k = k req
prepared-Exits ensured (err e) rest (inl two) k = inr (inl (two, refl))
prepared-Exits ensured (err e) rest (inr three) k = inr (inr three)

module _ {Value Document : Type 0} (codec : Codec Value Document) where
  -- Each data command exits with 0, 2 or 3: with 0 after ensuring a daemon, which was there or has
  -- been started, and calling one endpoint; with 2 before it has done either.
  pub run_command-Exits : (sh : Shell) (c : Command) → Exits sh.ensured (run_command codec sh c)
  unfolding run_command show_document
  run_command-Exits sh (sends queue input flags) =
      prepared-Exits sh.ensured (parse_send sh.valid sh.quote queue input flags) _
        (parse_send-Refuses sh.valid sh.quote queue input flags)
        (λ req.
          request-Exits _ sh.ensured (sh.client.send_message req) _
            (show_line-Ends03 sh.format sh.writes))
  run_command-Exits sh (lists_messages options) =
      request-Exits _ sh.ensured (sh.client.list_messages options) _
        (show_list-Ends03 sh.format sh.writes)
  run_command-Exits sh (shows_message id) =
      request-Exits _ sh.ensured (sh.client.show_message id) _ (λ m. write_json-Ends03 sh.writes)
  run_command-Exits sh lists_queues =
      request-Exits _ sh.ensured sh.client.list_queues _ (show_list-Ends03 sh.format sh.writes)
  run_command-Exits sh (applies_action source) =
      prepared-Exits sh.ensured (parse_apply codec sh.cel source) _
        (parse_apply-Refuses codec sh.cel source)
        (λ definition.
          request-Exits _ sh.ensured (sh.client.apply_action definition) _
            (show_line-Ends03 sh.format sh.writes))
  run_command-Exits sh lists_actions =
      request-Exits _ sh.ensured sh.client.list_actions _ (show_list-Ends03 sh.format sh.writes)
  run_command-Exits sh (shows_action name version) =
      prepared-Exits sh.ensured (parse_version version) _ (parse_version-Refuses version) (λ v.
        request-Exits _ sh.ensured (sh.client.show_action name v) _
          (λ a. write_json-Ends03 sh.writes))
  run_command-Exits sh (sets_enabled name enabled) =
      request-Exits _ sh.ensured (sh.client.set_action_enabled name enabled) _
        (show_line-Ends03 sh.format sh.writes)
  run_command-Exits sh (lists_deliveries options) =
      request-Exits _ sh.ensured (sh.client.list_deliveries options) _
        (show_list-Ends03 sh.format sh.writes)
  run_command-Exits sh (shows_delivery id) =
      request-Exits _ sh.ensured (sh.client.show_delivery id) _ (λ d. write_json-Ends03 sh.writes)
  run_command-Exits sh (replays_delivery id) =
      request-Exits _ sh.ensured (sh.client.replay_delivery id) _
        (show_line-Ends03 sh.format sh.writes)
