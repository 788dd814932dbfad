-- ===== src/Workflow/Parse/Canonical.antt =====
-- ParseJSON of internal/workflow/action.go after Canonical.
use sonata.Prelude.{
  ◌≡◌, refl, false, ◌||◌, ◌⊎◌, Option, none, some, [], Text, codes, same, same→eq, is_empty, ok,
  bind-ok, Bool-cases, inl, inr, is_empty-false,
}
use sonata.Workflow.Definition.{Action}
use sonata.Workflow.Cel.{Cel}
use sonata.Workflow.Validate.{
  InvalidAction, undecodable, wrapped, strict_unmarshal, validate, bad_instructions, malformed,
}
use sonata.Workflow.Validate.Valid.{InstructionsOk, CommandOk}
use sonata.Workflow.Validate.Instructions.{strict_unmarshal-ok}
use mathlib.Core.Path.{subst, ap}
use sonata.Workflow.Validate.Accepting.{validate-IsValid}
use sonata.Workflow.Parse.{Codec, with_instructions, read_as, normalize, parse_json, canonical}

module _ {Value Document : Type 0} (codec : Codec Value Document) where
  read_as-ok {ℓ} :
      {A : Type ℓ} (x : InvalidAction) (o : Option A) (a : A)
      → read_as codec x o ≡ ok a
      → o ≡ some a
  read_as-ok x none a e = cc e
  read_as-ok x (some b) a e = cc e

  -- The block is dropped, or it is what the encoder writes for a value.
  normalize-cases :
      (a b : Action)
      → normalize codec a ≡ ok b
      → (b ≡ with_instructions codec [] a)
        ⊎ ((v : Value) × (norm : Text) × (codec.marshal v ≡ some norm)
            × (b ≡ with_instructions codec norm a))
  unfolding normalize
  normalize-cases a b e =
      elim (Bool-cases (is_empty a.instructions || same a.instructions (codes "null"))) [
        | inl f ↦ let e' = (rw f at e) in inl (cc e')
        | inr f ↦
            let (v, r, e') =
              bind-ok (read_as codec (bad_instructions malformed) (codec.unmarshal a.instructions))
                _ b ((rw f at e)) in
            let (norm, m, e'') =
              bind-ok (read_as codec (bad_instructions malformed) (codec.marshal v)) _ b e' in
            inr (v, norm, read_as-ok _ _ norm m, cc e'')
      ]

  normalize-marshal :
      (a : Action) (w : Value)
      → is_empty a.instructions ≡ false
      → same a.instructions (codes "null") ≡ false
      → codec.unmarshal a.instructions ≡ some w
      → codec.marshal w ≡ some a.instructions
      → normalize codec a ≡ ok a
  unfolding normalize
  normalize-marshal a w n k u m = rw (n, k, u, m) refl

  parsed :
      (cel : Cel) (raw : Text) (a : Action)
      → parse_json codec cel raw ≡ ok a
      → (d : Action) × (codec.decode_action raw ≡ some (d, false))
        × (normalize codec d ≡ ok a)
        × (validate cel codec.decode_instructions a ≡ ok tt)
  unfolding parse_json
  parsed cel raw a e =
      let (d, e1, e2) =
        bind-ok (wrapped undecodable (strict_unmarshal (codec.decode_action raw))) _ a e in
      let (b, e3, e4) = bind-ok (normalize codec d) _ a e2 in
      let (u, v, e5) = bind-ok (validate cel codec.decode_instructions b) (λ _. ok b) a e4 in
      let same_action : b ≡ a = cc e5 in
      (
        d,
        (strict_unmarshal-ok undecodable (codec.decode_action raw) d).0 e1,
        cc (e3, e5),
        subst (λ x. validate cel codec.decode_instructions x ≡ ok tt) same_action v,
      )

  reparsed :
      (cel : Cel) (raw : Text) (a : Action)
      → codec.decode_action raw ≡ some (a, false)
      → normalize codec a ≡ ok a
      → validate cel codec.decode_instructions a ≡ ok tt
      → parse_json codec cel raw ≡ ok a
  unfolding parse_json strict_unmarshal
  reparsed cel raw a d n v = rw (d, n, v) refl

  -- A null block has no command.
  block_not_null :
      (raw : Text)
      → codec.decode_instructions (codes "null")
        ≡ some (record { command = []; timeout = none }, false)
      → InstructionsOk codec.decode_instructions raw
      → same raw (codes "null") ≡ false
  unfolding InstructionsOk CommandOk
  block_not_null raw null (k, si, d, c, t) = elim (Bool-cases (same raw (codes "null"))) [
    | inr e ↦ e
    | inl e ↦
        let eq = same→eq raw (codes "null") e in
        let empty : si.command ≡ [] = cc (eq, d, null) in absurd ((rw empty at c))
  ]

  module _ (cel : Cel)
      (reads_back : (raw norm c : Text) (a : Action) (v : Value)
        → codec.decode_action raw ≡ some (a, false)
        → codec.marshal v ≡ some norm
        → codec.marshal_action (with_instructions codec norm a) ≡ some c
        → codec.decode_action c ≡ some (with_instructions codec norm a, false))
      (fixed : (v : Value) (norm : Text)
        → codec.marshal v ≡ some norm
        → (w : Value) × (codec.unmarshal norm ≡ some w) × (codec.marshal w ≡ some norm))
      (null_block : codec.decode_instructions (codes "null")
        ≡ some (record { command = []; timeout = none }, false)) where
    -- Where decoding gives back the definition that was encoded, encoding gives a value that is
    -- read back its text again, and null is a block without a command: parsing the canonical form
    -- of a definition that was parsed gives the same definition.
    pub parse_json-canonical :
        (raw c : Text) (a : Action)
        → parse_json codec cel raw ≡ ok a
        → canonical codec a ≡ some c
        → parse_json codec cel c ≡ ok a
    unfolding canonical InstructionsOk
    parse_json-canonical raw c a e k =
        let (d, decoded, normal, accepted) = parsed cel raw a e in
        let block = ((validate-IsValid cel codec.decode_instructions a).0 accepted).instructions in
        let full = (is_empty-false a.instructions).1 block.0 in
        let not_null = block_not_null a.instructions null_block block in
        elim (normalize-cases d a normal) [
          | inl none_left ↦ absurd (block.0 (ap (λ (x : Action). x.instructions) none_left))
          | inr (v, norm, m, e') ↦
              let back = reads_back raw norm c d v decoded m (cc (k, e')) in
              let (w, u, m') = fixed v norm m in
              let again = normalize-marshal a w full not_null (cc (u, e')) (cc (m', e')) in
              reparsed cel c a (cc (back, e')) again accepted
        ]
