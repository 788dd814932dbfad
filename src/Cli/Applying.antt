-- ===== src/Cli/Applying.antt =====
-- internal/cli/action.go, actionApply: the check of a definition on the client's side, beside the one
-- of the daemon in internal/api/actions.go.
use sonata.Prelude.{
  ℕ, ◌≡◌, refl, false, Option, none, some, [], ◌∷◌, Text, codes, is_empty, same, Result, ok, err,
  ◌||◌, bind-ok, Bool-cases, inl, inr, if◌then◌else◌,
}
use sonata.Prelude.Spaces.{trim_space}
use sonata.Store.Types.{Store, Env}
use sonata.Store.Actions.{apply_action}
use sonata.Workflow.Definition.{Action}
use sonata.Workflow.Cel.{Cel}
use sonata.Workflow.Validate.{InvalidAction, bad_document, empty_document}
use sonata.Workflow.Parse.{Codec, with_instructions, read_as, parse_json, parse_yaml, canonical}
use sonata.Workflow.Parse.Canonical.{parse_json-canonical}
use sonata.Api.Actions.{apply_reply, apply_canonical, apply_parsed, action_apply}
use sonata.Cli.Requests.{Source, no_file, stdin, file, invalid, encoded, parse_source, parse_apply}

module _ {Value Document : Type 0} (codec : Codec Value Document) (cel : Cel) where
  invalid-ok : {A : Type 0} (r : Result InvalidAction A) (a : A) → invalid r ≡ ok a → r ≡ ok a
  unfolding invalid
  invalid-ok (ok b) a e = cc e
  invalid-ok (err x) a e = cc e

  encoded-ok : (o : Option Text) (c : Text) → encoded o ≡ ok c → o ≡ some c
  unfolding encoded
  encoded-ok none c e = cc e
  encoded-ok (some d) c e = cc e

  -- YAML goes through JSON.
  parse_yaml-ok :
      (raw : Text) (a : Action)
      → parse_yaml codec cel raw ≡ ok a
      → (j : Text) × (parse_json codec cel j ≡ ok a)
  unfolding parse_yaml
  parse_yaml-ok raw a e =
      let (doc, e1, e2) = bind-ok (read_as codec bad_document (codec.unmarshal_yaml raw)) _ a e in
      let (j, e3, e4) =
        bind-ok
          (if codec.is_null doc
            then err empty_document
            else read_as codec bad_document (codec.marshal_document doc))
          _ a e2 in
      (j, e4)

  parse_source-ok :
      (source : Source) (a : Action)
      → parse_source codec cel source ≡ ok a
      → (j : Text) × (parse_json codec cel j ≡ ok a)
  unfolding parse_source
  parse_source-ok no_file a e = cc e
  parse_source-ok (stdin none) a e = cc e
  parse_source-ok (stdin (some text)) a e = elim (Bool-cases (is_empty (trim_space text))) [
    | inl blank ↦ cc ((rw blank at e))
    | inr full ↦ (text, invalid-ok (parse_json codec cel text) a (rw full at e))
  ]
  parse_source-ok (file none) a e = cc e
  parse_source-ok (file (some text)) a e =
      parse_yaml-ok text a (invalid-ok (parse_yaml codec cel text) a e)

  object_text : (c rest : Text) → c ≡ b'{' ∷ rest → (is_empty c || same c (codes "null")) ≡ false
  unfolding is_empty same
  object_text c rest e = rw e refl

  daemon-registers :
      (c : Text) (a : Action) (env : Env) (now : ℕ) (s : Store)
      → (is_empty c || same c (codes "null")) ≡ false
      → parse_json codec cel c ≡ ok a
      → canonical codec a ≡ some c
      → action_apply codec cel env c now s ≡ apply_reply (apply_action env a.name c now s)
  unfolding action_apply apply_parsed apply_canonical
  daemon-registers c a env now s n p k = rw (n, p, apply_parsed, k, apply_canonical) refl

  module _
      (reads_back : (raw norm c : Text) (a : Action) (v : Value)
        → codec.decode_action raw ≡ some (a, false)
        → codec.marshal v ≡ some norm
        → codec.marshal_action (with_instructions codec norm a) ≡ some c
        → codec.decode_action c ≡ some (with_instructions codec norm a, false))
      (fixed : (v : Value) (norm : Text)
        → codec.marshal v ≡ some norm
        → (w : Value) × (codec.unmarshal norm ≡ some w) × (codec.marshal w ≡ some norm))
      (null_block : codec.decode_instructions (codes "null")
        ≡ some (record { command = []; timeout = none }, false))
      (object : (a : Action) (c : Text)
        → codec.marshal_action a ≡ some c
        → (rest : Text) × (c ≡ b'{' ∷ rest)) where
    -- Where decoding gives back the definition that was encoded, encoding gives a value that is
    -- read back its text again, null is a block without a command, and the JSON of a definition is
    -- an object: a definition that `sonata action apply` takes, from YAML or JSON, is not refused by
    -- the daemon. The daemon registers the text that was sent, under the name of the definition
    -- that the command has read.
    pub parse_apply-registers :
        (source : Source) (c : Text) (env : Env) (now : ℕ) (s : Store)
        → parse_apply codec cel source ≡ ok c
        → (a : Action) × (parse_source codec cel source ≡ ok a)
          × (action_apply codec cel env c now s ≡ apply_reply (apply_action env a.name c now s))
    unfolding parse_apply
    parse_apply-registers source c env now s e =
        let (a, read, e') = bind-ok (parse_source codec cel source) _ c e in
        let marshalled = encoded-ok (canonical codec a) c e' in
        let (j, first) = parse_source-ok source a read in
        let again =
          parse_json-canonical codec cel reads_back fixed null_block j c a first marshalled in
        let (rest, braces) = object a c marshalled in
        (a, read, daemon-registers c a env now s (object_text c rest braces) again marshalled)
