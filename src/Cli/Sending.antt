-- ===== src/Cli/Sending.antt =====
-- internal/cli/send.go: the request that `sonata send` makes of its arguments.
use sonata.Prelude.{
  ◌≡◌, ◌≢◌, refl, ap, ◌∙◌, false, true, Bool, Option, none, some, List, [], ◌∷◌, ◌++◌, map, Text,
  is_empty-false, same, same→eq, same_refl, ok, any, All, ◌==◌, if◌then◌else◌, Bool-cases, inl, inr,
  arith,
}
use sonata.Prelude.Spaces.{trim_space}
use sonata.Store.Types.{HeaderValue, other, Headers}
use sonata.Api.{set_header}
use sonata.Cli.Requests.{before_cut, cut, with_header, with_headers, parse_send}

-- The flag for a header.
abbrev pub flag_of : Text × Text → Text
flag_of (name, value) = name ++ b'=' ∷ value

-- A name that a flag can give: not empty, and without '='.
abbrev pub IsName : Text × Text → Type 0
IsName (name, value) = (name ≢ []) × (any (λ c. c == b'=') name ≡ false)

-- The value of a header.
abbrev pub header_at : Text → Headers → Option HeaderValue
header_at k [] = none
header_at k ((n, v) ∷ headers) =
    let later = header_at k headers in if same n k then some v else later

-- The last of the values that are given for a name, and `before` where there is none.
abbrev pub last_value :
    (Text → Text) → Text → List (Text × Text) → Option HeaderValue → Option HeaderValue
last_value quote k [] before = before
last_value quote k ((n, v) ∷ entries) before =
    last_value quote k entries (if same n k then some (other (quote v)) else before)

cut-flag_of :
    (name value : Text)
    → any (λ c. c == b'=') name ≡ false
    → cut (flag_of (name, value)) ≡ some (name, value)
unfolding cut before_cut
cut-flag_of [] value h = refl
cut-flag_of (c ∷ name) value h = elim (Bool-cases (c == b'=')) [
  | inl equals ↦ cc ((rw equals at h))
  | inr differs ↦ rw (differs, cut-flag_of name value (rw differs at h)) refl
]

header_at-set_header :
    (k n : Text) (v : HeaderValue) (headers : Headers)
    → header_at k (set_header n v headers) ≡ (if same n k then some v else header_at k headers)
unfolding set_header
header_at-set_header k n v [] = refl
header_at-set_header k n v ((m, w) ∷ headers) = ground (
  arith,
  header_at-set_header k n v headers,
  same→eq m n,
  same→eq n k,
  same→eq m k,
  same_refl n,
  same_refl m,
  same_refl k,
)

with_headers-last_value :
    (quote : Text → Text) (entries : List (Text × Text)) (before : Headers)
    → All IsName entries
    → (headers : Headers) × (with_headers quote (map flag_of entries) before ≡ ok headers)
      × ((k : Text) → header_at k headers ≡ last_value quote k entries (header_at k before))
unfolding with_headers with_header
with_headers-last_value quote [] before h = (before, refl, λ k. refl)
with_headers-last_value quote (([], v) ∷ entries) before h = absurd (h.0.0 refl)
with_headers-last_value quote ((c ∷ n, v) ∷ entries) before (named, rest) =
    let set = set_header (c ∷ n) (other (quote v)) before in
    let (headers, went, values) = with_headers-last_value quote entries set rest in
    (
      headers,
      rw (cut-flag_of (c ∷ n) v named.1) went,
      λ k.
          values k
          ∙ ap (last_value quote k entries)
              (header_at-set_header k (c ∷ n) (other (quote v)) before),
    )

-- Where the payload is valid JSON and not blank, and the names of the headers are not empty and have
-- no '=': `sonata send` makes a request with the queue and the payload as given, in which each
-- header has the last value that was given for its name, and no other headers.
parse_send-last_value :
    (valid : Text → Bool) (quote : Text → Text) (queue payload : Text)
    (entries : List (Text × Text))
    → trim_space payload ≢ []
    → valid payload ≡ true
    → All IsName entries
    → (headers : Headers) × (parse_send valid quote queue (some payload) (map flag_of entries)
        ≡ ok (record { queue = queue; payload = payload; headers = headers }))
      × ((k : Text) → header_at k headers ≡ last_value quote k entries none)
unfolding parse_send
parse_send-last_value valid quote queue payload entries full good named =
    let (headers, went, values) = with_headers-last_value quote entries [] named in
    (headers, rw ((is_empty-false (trim_space payload)).1 full, good, went) refl, values)
