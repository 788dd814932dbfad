-- ===== src/Examples/Configuring.antt =====
-- A configuration that a child process inherits.

use mathlib.Core.Path.{subst}
use sonata.Prelude.{
  ◌≡◌, ◌≢◌, refl, sym, ap, Option, some, List, [], ◌∷◌, ◌++◌, Text, codes, is_empty, is_empty-false,
  ok, err, if◌then◌else◌, ◌==◌, Bool-cases, inl, inr, arith,
}
use sonata.Prelude.Int.{ℤ, pos, negsuc}
use sonata.Config.{Config, System, Viper, Printer, read, not_found, env, read_config, load}
use sonata.Config.Propagation.{variable, lookup, load-env}

abbrev join_parts : List Text → Text
join_parts [] = []
join_parts (p ∷ []) = p
join_parts (p ∷ q ∷ parts) = p ++ 47 ∷ join_parts (q ∷ parts)

abbrev rooted : Text → Option Text
rooted [] = some (codes "/")
rooted (c ∷ r) = some (if c == 47 then c ∷ r else 47 ∷ c ∷ r)

abbrev system : System
system = record {
  xdg_state_home = [];
  xdg_config_home = [];
  home = some (codes "/home/ann");
  join = join_parts;
  abs = rooted;
}

rooted_path : (p q : Text) → rooted p ≡ some q → ((r : Text) × (q ≡ 47 ∷ r)) × (rooted q ≡ some q)
rooted_path [] q e =
    let one : codes "/" ≡ q = cc e in (([], sym one), subst (λ x. rooted x ≡ some x) one refl)
rooted_path (c ∷ r) q e = elim (Bool-cases (c == 47)) [
  | inl h ↦
      let one : c ∷ r ≡ q = cc ((rw h at e)) in
      let slash : c ≡ 47 = ground arith in
      ((r, cc (one, slash)), subst (λ x. rooted x ≡ some x) one (rw h refl))
  | inr h ↦
      let one : 47 ∷ c ∷ r ≡ q = cc ((rw h at e)) in
      ((c ∷ r, sym one), subst (λ x. rooted x ≡ some x) one refl)
]

rooted_joined :
    (dir name : Text)
    → rooted dir ≡ some dir
    → rooted (join_parts (dir ∷ name ∷ [])) ≡ some (join_parts (dir ∷ name ∷ []))
rooted_joined [] name e = refl
rooted_joined (c ∷ r) name e = elim (Bool-cases (c == 47)) [
  | inl h ↦ rw h refl
  | inr h ↦ let e' = (rw h at e) in let slash : c ≡ 47 = cc e' in absurd (ground arith)
]

-- A number printed as its size, twice where it is negative.
abbrev print_number : ℤ → Text
print_number (pos n) = n ∷ []
print_number (negsuc n) = n ∷ n ∷ []

abbrev read_number : Option Text → ℤ → ℤ
read_number (some (n ∷ [])) default = pos n
read_number (some (n ∷ m ∷ [])) default = negsuc n
read_number o default = default

abbrev printer : Printer
printer = record { itoa = print_number; duration_text = print_number }

abbrev unset : Viper
unset = record {
  get_string = λ key default. default;
  get_duration = λ key default. default;
  get_int = λ key default. default;
  read_file = λ file. read;
  search = λ dir. not_found;
}

abbrev resolved : Config
resolved = elim (load system unset []) [
  | ok c ↦ c
  | err e ↦ record {
    state_dir = [];
    socket = [];
    database = [];
    log_level = [];
    idle_timeout = pos 0;
    max_hops = pos 0;
    default_max_attempts = pos 0;
    default_task_timeout = pos 0;
    backoff_base = pos 0;
    backoff_cap = pos 0;
    stdout_cap = pos 0;
  }
]

-- An empty variable counts as unset.
abbrev given : Option Text → Text → Text
given (some (c ∷ value)) default = c ∷ value
given o default = default

abbrev child : Viper
child = record unset {
  get_string = λ key default. given (lookup (variable key) (env printer resolved)) default;
  get_duration = λ key default. read_number (lookup (variable key) (env printer resolved)) default;
  get_int = λ key default. read_number (lookup (variable key) (env printer resolved)) default;
}

child_strings :
    (key value default : Text)
    → lookup (variable key) (env printer resolved) ≡ some value
    → value ≢ []
    → child.get_string key default ≡ value
child_strings key [] default e n = absurd (n refl)
child_strings key (c ∷ value) default e n = ap (λ o. given o default) e

child_numbers :
    (key : Text) (n default : ℤ)
    → lookup (variable key) (env printer resolved) ≡ some (print_number n)
    → read_number (lookup (variable key) (env printer resolved)) default ≡ n
unfolding env
child_numbers key (pos n) default e = ap (λ o. read_number o default) e
child_numbers key (negsuc n) default e = ap (λ o. read_number o default) e

loaded : load system unset [] ≡ ok resolved
unfolding load is_empty
loaded = refl

resolved_dir : resolved.state_dir ≢ []
unfolding load is_empty
resolved_dir = (is_empty-false resolved.state_dir).0 refl

resolved_level : resolved.log_level ≢ []
unfolding load is_empty
resolved_level = (is_empty-false resolved.log_level).0 refl

readable : read_config system child [] ≡ ok tt
unfolding read_config
readable = refl

load-env_example : load system child [] ≡ ok resolved
load-env_example =
    load-env system rooted_path rooted_joined printer unset child [] resolved child_strings
      child_numbers child_numbers loaded resolved_dir resolved_level readable
