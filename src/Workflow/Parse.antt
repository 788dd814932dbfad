-- ===== src/Workflow/Parse.antt =====
-- internal/workflow/action.go: parsing a definition from JSON and YAML, and its canonical form.
-- encoding/json and the YAML library are parameters.
pub mod Canonical
use sonata.Prelude.{
  ℕ, ◌≡◌, Bool, false, ◌||◌, Option, none, some, List, [], ◌∷◌, Text, codes, same, is_empty, Result,
  ok, err, ◌>>=◌, ◌>>◌, if◌then◌else◌,
}
use sonata.Workflow.Definition.{Action}
use sonata.Workflow.Cel.{Cel}
use sonata.Workflow.Validate.{
  Instructions, InvalidAction, undecodable, bad_document, empty_document, bad_instructions,
  malformed, wrapped, strict_unmarshal, validate,
}

-- What the source calls of the decoders: a JSON value and a YAML document are of types of theirs.
-- `decode_action` and `decode_instructions` are strict, and say whether more content follows;
-- `is_null` says that a YAML document is empty.
pub record Codec (Value Document : Type 0) : Type 0 where
  pub decode_action : Text → Option (Action × Bool)
  pub decode_instructions : Instructions
  pub unmarshal : Text → Option Value
  pub marshal : Value → Option Text
  pub marshal_action : Action → Option Text
  pub unmarshal_yaml : Text → Option Document
  pub is_null : Document → Bool
  pub marshal_document : Document → Option Text

module _ {Value Document : Type 0} (codec : Codec Value Document) where
  abbrev pub with_instructions : Text → Action → Action
  with_instructions raw a = record a { instructions = raw }

  -- A call of the decoder or the encoder that may fail.
  abbrev pub read_as {ℓ} : {A : Type ℓ} → InvalidAction → Option A → Result InvalidAction A
  read_as e none = err e
  read_as e (some a) = ok a

  unfoldable pub normalize : Action → Result InvalidAction Action
  normalize a =
      if is_empty a.instructions || same a.instructions (codes "null")
      then ok (with_instructions [] a)
      else (do
        v ← read_as (bad_instructions malformed) (codec.unmarshal a.instructions)
        norm ← read_as (bad_instructions malformed) (codec.marshal v)
        ok (with_instructions norm a))

  unfoldable pub parse_json : Cel → Text → Result InvalidAction Action
  unfolding normalize
  parse_json cel raw = do
    decoded ← wrapped undecodable (strict_unmarshal (codec.decode_action raw))
    a ← normalize decoded
    validate cel codec.decode_instructions a >> ok a

  unfoldable pub parse_yaml : Cel → Text → Result InvalidAction Action
  unfolding parse_json
  parse_yaml cel raw = do
    doc ← read_as bad_document (codec.unmarshal_yaml raw)
    j ←
        if codec.is_null doc
        then err empty_document
        else read_as bad_document (codec.marshal_document doc)
    parse_json cel j

  -- Canonical: none where the encoder fails.
  unfoldable pub canonical : Action → Option Text
  canonical a = codec.marshal_action a
