-- ===== src/Cli/Refusing.antt =====
-- internal/cli: how the data commands refuse their input.
use sonata.Prelude.{
  Bool, Option, none, some, List, [], ◌∷◌, Text, is_empty, Result, ok, err, ◌>>=◌, ◌≡◌, refl, ◌⊎◌,
  inl, inr, Bool-cases,
}
use sonata.Prelude.Int.{ℤ, pos, ltb_ℤ}
use sonata.Prelude.Spaces.{trim_space}
use sonata.Store.Types.{Headers}
use sonata.Workflow.Cel.{Cel}
use sonata.Workflow.Validate.{InvalidAction}
use sonata.Workflow.Parse.{Codec, parse_json, parse_yaml, canonical}
use sonata.Cli.{CmdError, execute}
use sonata.Cli.Requests.{
  cut, with_header, with_headers, parse_send, Source, no_file, stdin, file, invalid, encoded,
  parse_source, parse_apply, parse_version,
}

-- An error is a usage error or an operational one.
abbrev pub Refuses {ℓ} : {A : Type ℓ} → Result CmdError A → Type 0
Refuses (ok a) = Unit
Refuses (err e) = (execute (err e) ≡ 2) ⊎ (execute (err e) ≡ 3)

Refuses-bind {ℓ κ} :
    {A : Type ℓ} {B : Type κ} (m : Result CmdError A) (k : A → Result CmdError B)
    → Refuses m
    → ((a : A) → Refuses (k a))
    → Refuses (m >>= k)
Refuses-bind (ok a) k h g = g a
Refuses-bind (err e) k h g = h

with_header-Refuses :
    (quote : Text → Text) (o : Option (Text × Text)) (headers : Headers)
    → Refuses (with_header quote o headers)
unfolding with_header execute
with_header-Refuses quote none headers = inl refl
with_header-Refuses quote (some ([], v)) headers = inl refl
with_header-Refuses quote (some (c ∷ k, v)) headers = tt

with_headers-Refuses :
    (quote : Text → Text) (flags : List Text) (headers : Headers)
    → Refuses (with_headers quote flags headers)
unfolding with_headers
with_headers-Refuses quote [] headers = tt
with_headers-Refuses quote (flag ∷ flags) headers =
    Refuses-bind (with_header quote (cut flag) headers) (with_headers quote flags)
      (with_header-Refuses quote (cut flag) headers) (λ more. with_headers-Refuses quote flags more)

pub parse_send-Refuses :
    (valid : Text → Bool) (quote : Text → Text) (queue : Text) (input : Option Text)
    (flags : List Text)
    → Refuses (parse_send valid quote queue input flags)
unfolding parse_send execute
parse_send-Refuses valid quote queue none flags = inr refl
parse_send-Refuses valid quote queue (some payload) flags =
    elim (Bool-cases (is_empty (trim_space payload))) [
      | inl blank ↦ rw blank (inl refl)
      | inr full ↦ elim (Bool-cases (valid payload)) [
        | inr bad ↦ rw (full, bad) (inl refl)
        | inl good ↦
            rw (full, good)
              (Refuses-bind (with_headers quote flags []) _ (with_headers-Refuses quote flags [])
                (λ headers. tt))
      ]
    ]

invalid-Refuses : {A : Type 0} (r : Result InvalidAction A) → Refuses (invalid r)
unfolding invalid execute
invalid-Refuses (ok a) = tt
invalid-Refuses (err e) = inl refl

encoded-Refuses : (o : Option Text) → Refuses (encoded o)
unfolding encoded execute
encoded-Refuses none = inr refl
encoded-Refuses (some c) = tt

pub parse_version-Refuses : (version : ℤ) → Refuses (parse_version version)
unfolding parse_version execute
parse_version-Refuses version = elim (Bool-cases (ltb_ℤ version (pos 0))) [
  | inl negative ↦ rw negative (inl refl)
  | inr fine ↦ rw fine tt
]

module _ {Value Document : Type 0} (codec : Codec Value Document) where
  parse_source-Refuses : (cel : Cel) (source : Source) → Refuses (parse_source codec cel source)
  unfolding parse_source execute
  parse_source-Refuses cel no_file = inl refl
  parse_source-Refuses cel (stdin none) = inr refl
  parse_source-Refuses cel (stdin (some text)) = elim (Bool-cases (is_empty (trim_space text))) [
    | inl blank ↦ rw blank (inl refl)
    | inr full ↦ rw full (invalid-Refuses (parse_json codec cel text))
  ]
  parse_source-Refuses cel (file none) = inr refl
  parse_source-Refuses cel (file (some text)) = invalid-Refuses (parse_yaml codec cel text)

  pub parse_apply-Refuses : (cel : Cel) (source : Source) → Refuses (parse_apply codec cel source)
  unfolding parse_apply
  parse_apply-Refuses cel source =
      Refuses-bind (parse_source codec cel source) (λ def. encoded (canonical codec def))
        (parse_source-Refuses cel source) (λ def. encoded-Refuses (canonical codec def))
