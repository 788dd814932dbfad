-- ===== src/Workflow/Cel.antt =====
-- internal/workflow/cel.go: compiling and evaluating the expressions of an action.
-- The CEL library is a parameter: what its checker and its evaluator answer for a source text. A
-- compiled program is represented by the text that it was compiled from.
pub mod Coherence
use sonata.Prelude.{
  ℕ, suc, Bool, true, false, ◌&&◌, ◌||◌, Option, none, some, List, [], ◌∷◌, Text, same, is_empty,
  Result, ok, err, ◌>>=◌, if◌then◌else◌, ◌==◌, any,
}
use sonata.Prelude.Int.{ℤ}
use sonata.Store.Types.{Headers}
use sonata.Workflow.Definition.{Input, Action}

pub data CelType : Type 0 where
  bool_type string_type int_type dyn_type : CelType
  other_type : Text → CelType

-- A double is kept as its integral value, or as not integral (infinite and NaN included).
pub data CelValue : Type 0 where
  bool_value : Bool → CelValue
  string_value : Text → CelValue
  int_value : ℤ → CelValue
  uint_value : ℕ → CelValue
  integral_double : ℤ → CelValue
  fractional_double : CelValue
  other_value : Text → CelValue

pub record Activation : Type 0 where
  pub payload : Text
  pub headers : Headers
  pub queue : Text
  pub trace_id : ℕ

-- cel-go and encoding/json: `check` is env.Compile with the type of the result (`none` for an
-- issue), `program` whether env.Program succeeds, `eval` the evaluation of a program, and
-- `decodes` whether json.Unmarshal reads a payload.
pub record Cel : Type 0 where
  pub check : Text → Option CelType
  pub program : Text → Bool
  pub eval : Text → Activation → Option CelValue
  pub decodes : Text → Bool

pub data Field : Type 0 where
  filter_field correlate_field : Field

pub data CompileError : Type 0 where
  -- The index of the input and the expression that does not compile.
  bad_expression : ℕ → Field → CompileError

abbrev pub is_type : CelType → CelType → Bool
is_type bool_type bool_type = true
is_type string_type string_type = true
is_type int_type int_type = true
is_type dyn_type dyn_type = true
is_type (other_type s) (other_type t) = same s t
is_type _ _ = false

-- A result type that the checker knows must be one of those wanted.
type_allowed : CelType → List CelType → Bool
type_allowed dyn_type want = true
type_allowed t want = any (is_type t) want

checked : Cel → Text → List CelType → Option CelType → Bool
unfolding type_allowed
checked cel src want none = false
checked cel src want (some t) = type_allowed t want && cel.program src

-- compileTyped: whether it gives a program.
unfoldable pub compile_typed : Cel → Text → List CelType → Bool
unfolding checked
compile_typed cel src want = checked cel src want (cel.check src)

pub record Compiled : Type 0 where
  pub filters : List (Option Text)
  pub correlate : List (Option Text)

-- One expression: none where the field is empty.
compile_field : Cel → ℕ → Field → Text → List CelType → Result CompileError (Option Text)
unfolding compile_typed
compile_field cel i field [] want = ok none
compile_field cel i field (c ∷ src) want =
    if compile_typed cel (c ∷ src) want then ok (some (c ∷ src)) else err (bad_expression i field)

-- The loop of Compile from the i-th input on.
unfoldable pub compile_from : Cel → ℕ → List Input → Result CompileError Compiled
unfolding compile_field
compile_from cel i [] = ok (record { filters = []; correlate = [] })
compile_from cel i (input ∷ rest) =
    let later = compile_from cel (suc i) rest in
    do
      f ← compile_field cel i filter_field input.filter (bool_type ∷ [])
      k ← compile_field cel i correlate_field input.correlate_on (string_type ∷ int_type ∷ [])
      c ← later
      ok (record { filters = f ∷ c.filters; correlate = k ∷ c.correlate })

unfoldable pub compile : Cel → Action → Result CompileError Compiled
unfolding compile_from
compile cel a = compile_from cel 0 a.inputs

pub data EvalError : Type 0 where
  payload_error evaluation_error no_expression : EvalError
  wrong_type : EvalError
  not_integral : EvalError

-- NewActivation: an empty payload is skipped. The headers are an object and always decode.
unfoldable pub new_activation : Cel → Text → Headers → Text → ℕ → Result EvalError Activation
new_activation cel payload headers queue trace_id =
    if is_empty payload || cel.decodes payload
    then ok (record { payload = payload; headers = headers; queue = queue; trace_id = trace_id })
    else err payload_error

as_bool : Option CelValue → Result EvalError Bool
as_bool none = err evaluation_error
as_bool (some (bool_value b)) = ok b
as_bool (some v) = err wrong_type

-- EvalFilter: no program accepts everything.
unfoldable pub eval_filter : Cel → Option Text → Activation → Result EvalError Bool
unfolding as_bool
eval_filter cel none act = ok true
eval_filter cel (some src) act = as_bool (cel.eval src act)

-- The text of a correlation key: a string as it is, a number in decimal.
pub data Key : Type 0 where
  text_key : Text → Key
  decimal_key : ℤ → Key

-- correlationKey.
unfoldable pub correlation_key : CelValue → Result EvalError Key
correlation_key (string_value t) = ok (text_key t)
correlation_key (int_value n) = ok (decimal_key n)
correlation_key (uint_value n) = ok (decimal_key (ℤ.pos n))
correlation_key (integral_double n) = ok (decimal_key n)
correlation_key fractional_double = err not_integral
correlation_key (bool_value b) = err wrong_type
correlation_key (other_value t) = err wrong_type

as_key : Option CelValue → Result EvalError Key
unfolding correlation_key
as_key none = err evaluation_error
as_key (some v) = correlation_key v

-- EvalCorrelate.
unfoldable pub eval_correlate : Cel → Option Text → Activation → Result EvalError Key
unfolding as_key
eval_correlate cel none act = err no_expression
eval_correlate cel (some src) act = as_key (cel.eval src act)

-- Cache: the compiled programs per (action name, version).
pub record Entry : Type 0 where
  pub name : Text
  pub version : ℕ
  pub compiled : Compiled

abbrev pub Cache : Type 0
Cache = List Entry

unfoldable pub cached : Text → ℕ → Cache → Option Compiled
cached name version [] = none
cached name version (e ∷ rest) =
    let later = cached name version rest in
    if same e.name name && e.version == version then some e.compiled else later

unfoldable pub stored :
    Text → ℕ → Result CompileError Compiled → Cache → Result CompileError Compiled × Cache
stored name version (ok c) cache =
    (ok c, record { name = name; version = version; compiled = c } ∷ cache)
stored name version (err e) cache = (err e, cache)

unfoldable pub looked_up :
    Cel → Text → ℕ → Action → Option Compiled → Cache → Result CompileError Compiled × Cache
unfolding stored
looked_up cel name version a (some c) cache = (ok c, cache)
looked_up cel name version a none cache = stored name version (compile cel a) cache

-- Get: compile on first use.
unfoldable pub get : Cel → Text → ℕ → Action → Cache → Result CompileError Compiled × Cache
unfolding looked_up
get cel name version a cache = looked_up cel name version a (cached name version cache) cache
