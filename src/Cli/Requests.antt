-- ===== src/Cli/Requests.antt =====
-- internal/cli: send.go, message.go, queue.go, action.go and delivery.go, the commands that call the
-- daemon.
use sonata.Prelude.{
  Bool, not, Option, none, some, List, [], ◌∷◌, Text, is_empty, Result, ok, err, ◌>>=◌,
  if◌then◌else◌, ◌==◌,
}
use sonata.Prelude.Int.{ℤ, pos, ltb_ℤ}
use sonata.Prelude.Spaces.{trim_space}
use sonata.Store.Types.{other, Headers}
use sonata.Workflow.Definition.{Action}
use sonata.Workflow.Cel.{Cel}
use sonata.Workflow.Validate.{InvalidAction}
use sonata.Workflow.Parse.{Codec, parse_json, parse_yaml, canonical}
use sonata.Api.{SendMessageRequest, set_header}
use sonata.Api.Transport.{ClientError}
use sonata.Daemon.Ensure.Sequence.{EnsureError}
use sonata.Api.Client.{Health}
use sonata.Cli.{
  CmdError, exit_error, exit_usage, exit_operational, Format, table, json, write_json, flush,
}
use sonata.Cli.Lifecycle.{operational, ensure_client}

-- What a command does outside its process: EnsureRunning, and a call of an endpoint.
pub data Contact : Type 0 where
  ensures : Contact
  calls : Text → Contact

abbrev pub Ran : Type 0
Ran = List Contact × Result CmdError (Unit {0})

abbrev pub Ensured : Type 0
Ensured = Result EnsureError (Health × Bool)

abbrev pub usage {ℓ} : {A : Type ℓ} → Result CmdError A
usage = err (exit_error exit_usage)

-- A command up to its first contact: the rest is skipped after an error.
unfoldable pub prepared {ℓ} : {Req : Type ℓ} → Result CmdError Req → (Req → Ran) → Ran
prepared (err e) rest = ([], err e)
prepared (ok req) rest = rest req

module _ {Resp : Type 0} where
  unfoldable pub after_ensure :
      Result CmdError (Unit {0})
      → Text
      → Result ClientError Resp
      → (Resp → Result CmdError (Unit {0}))
      → Ran
  unfolding operational
  after_ensure (err e) endpoint answer show = (ensures ∷ [], err e)
  after_ensure (ok u) endpoint answer show =
      (ensures ∷ calls endpoint ∷ [], operational answer >>= show)

  -- ensureClient, the call, and the output.
  unfoldable pub request :
      Text → Ensured → Result ClientError Resp → (Resp → Result CmdError (Unit {0})) → Ran
  unfolding after_ensure ensure_client
  request endpoint ensured answer show = after_ensure (ensure_client ensured) endpoint answer show

-- The output of a list, of a single line, and of a document.
unfoldable pub show_list : {A : Type 0} → Format → Bool → List A → Result CmdError (Unit {0})
unfolding write_json flush
show_list json writes rows = write_json writes
show_list table writes [] = ok tt
show_list table writes (r ∷ rows) = flush writes

unfoldable pub show_line : {A : Type 0} → Format → Bool → A → Result CmdError (Unit {0})
unfolding write_json
show_line json writes r = write_json writes
show_line table writes r = ok tt

unfoldable pub show_document : {A : Type 0} → Bool → A → Result CmdError (Unit {0})
unfolding write_json
show_document writes r = write_json writes

-- strings.Cut at the first '='.
unfoldable pub before_cut : {A : Type 0} → A → Option (List A × List A) → Option (List A × List A)
before_cut c none = none
before_cut c (some (k, v)) = some (c ∷ k, v)

unfoldable pub cut : Text → Option (Text × Text)
unfolding before_cut
cut [] = none
cut (c ∷ s) = let later = cut s in if c == b'=' then some ([], s) else before_cut c later

-- A value of --header: `quote` is the JSON of a text.
unfoldable pub with_header :
    (Text → Text) → Option (Text × Text) → Headers → Result CmdError Headers
unfolding set_header
with_header quote none headers = usage
with_header quote (some ([], v)) headers = usage
with_header quote (some (c ∷ k, v)) headers = ok (set_header (c ∷ k) (other (quote v)) headers)

unfoldable pub with_headers : (Text → Text) → List Text → Headers → Result CmdError Headers
unfolding with_header cut
with_headers quote [] headers = ok headers
with_headers quote (flag ∷ flags) headers =
    with_header quote (cut flag) headers >>= with_headers quote flags

unfoldable pub parse_send :
    (Text → Bool)
    → (Text → Text)
    → Text
    → Option Text
    → List Text
    → Result CmdError SendMessageRequest
unfolding with_headers trim_space
parse_send valid quote queue none flags = err (exit_error exit_operational)
parse_send valid quote queue (some payload) flags =
    if is_empty (trim_space payload) then usage else if not (valid payload) then usage else (do
      headers ← with_headers quote flags []
      ok (record { queue = queue; payload = payload; headers = headers }))

-- A definition from standard input or from a file, as its bytes.
pub data Source : Type 0 where
  no_file : Source
  stdin file : Option Text → Source

unfoldable pub invalid : {A : Type 0} → Result InvalidAction A → Result CmdError A
invalid (ok a) = ok a
invalid (err e) = usage

unfoldable pub encoded : Option Text → Result CmdError Text
encoded none = err (exit_error exit_operational)
encoded (some c) = ok c

module _ {Value Document : Type 0} (codec : Codec Value Document) where
  unfoldable pub parse_source : Cel → Source → Result CmdError Action
  unfolding invalid parse_json parse_yaml trim_space
  parse_source cel no_file = usage
  parse_source cel (stdin none) = err (exit_error exit_operational)
  parse_source cel (stdin (some text)) =
      if is_empty (trim_space text) then usage else invalid (parse_json codec cel text)
  parse_source cel (file none) = err (exit_error exit_operational)
  parse_source cel (file (some text)) = invalid (parse_yaml codec cel text)

  -- The definition that actionApply sends.
  unfoldable pub parse_apply : Cel → Source → Result CmdError Text
  unfolding parse_source encoded canonical
  parse_apply cel source = parse_source cel source >>= λ def. encoded (canonical codec def)

-- A negative version is refused at once.
unfoldable pub parse_version : ℤ → Result CmdError ℤ
parse_version version = if ltb_ℤ version (pos 0) then usage else ok version
