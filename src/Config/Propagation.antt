-- ===== src/Config/Propagation.antt =====
-- Env of internal/config/config.go beside Load: what a child process resolves.
use mathlib.Core.Path.{subst}
use sonata.Prelude.{
  ℕ, ◌-◌, ◌≡◌, ◌≢◌, refl, sym, inl, inr, ◌&&◌, Option, none, some, List, [], ◌∷◌, ◌++◌, map, Text,
  codes, same, leb, ◌==◌, Bool-cases, Option-cases, ok, bind-ok, if◌then◌else◌,
}
use sonata.Prelude.Int.{ℤ, pos}
use sonata.Config.{
  Config, System, Viper, Printer, env, under_home, absolute, expand, derive, default_state_dir,
  read_config, load,
}

abbrev upper : ℕ → ℕ
upper c = if leb 97 c && leb c 122 then c - 32 else c

-- The environment variable that viper reads for a key.
abbrev pub variable : Text → Text
variable key = codes "SONATA_" ++ map upper key

abbrev pub lookup : Text → List (Text × Text) → Option Text
lookup name [] = none
lookup name ((n, value) ∷ rest) =
    let later = lookup name rest in if same n name then some value else later

module _ (os : System)
    (absolute_path : (p q : Text)
      → os.abs p ≡ some q
      → ((r : Text) × (q ≡ 47 ∷ r)) × (os.abs q ≡ some q))
    (joined : (dir name : Text)
      → os.abs dir ≡ some dir
      → os.abs (os.join (dir ∷ name ∷ [])) ≡ some (os.join (dir ∷ name ∷ []))) where
  absolute-abs : (p q : Text) → absolute os p ≡ ok q → os.abs q ≡ some q
  unfolding absolute
  absolute-abs p q e = elim (Option-cases (os.abs p)) [
    | inl n ↦ cc ((rw (n, absolute) at e))
    | inr (r, s) ↦
        let one : r ≡ q = cc ((rw (s, absolute) at e)) in
        subst (λ x. os.abs x ≡ some x) one (absolute_path p r s).1
  ]

  -- A path that Abs has made stands for itself.
  absolute-fixed : (q : Text) → os.abs q ≡ some q → absolute os q ≡ ok q
  unfolding absolute
  absolute-fixed q e = rw (e, absolute) refl

  expand-fixed : (q : Text) → os.abs q ≡ some q → expand os q ≡ ok q
  unfolding expand
  expand-fixed q e =
      let ((r, s), t) = absolute_path q q e in
      subst (λ x. expand os x ≡ ok x) (sym s)
        (absolute-fixed (47 ∷ r) (subst (λ x. os.abs x ≡ some x) s e))

  derive-fixed : (q dir name : Text) → os.abs q ≡ some q → derive os q dir name ≡ ok q
  unfolding derive
  derive-fixed q dir name e =
      let ((r, s), t) = absolute_path q q e in
      subst (λ x. derive os x dir name ≡ ok x) (sym s)
        (expand-fixed (47 ∷ r) (subst (λ x. os.abs x ≡ some x) s e))

  abs_not_empty : (q : Text) → os.abs q ≡ some q → q ≢ []
  abs_not_empty q e z = let ((r, s), t) = absolute_path q q e in cc (s, z)

  path-abs : (c : ℕ) (rest q : Text) → expand os (c ∷ rest) ≡ ok q → os.abs q ≡ some q
  unfolding expand
  path-abs c rest q e = elim (Bool-cases (c == 126)) [
    | inl h ↦
        let (p, u, a) = bind-ok (under_home os (rest ∷ []) os.home) (absolute os) q ((rw h at e)) in
        absolute-abs p q a
    | inr h ↦ absolute-abs (c ∷ rest) q ((rw h at e))
  ]

  expand-abs : (p q : Text) → q ≢ [] → expand os p ≡ ok q → os.abs q ≡ some q
  expand-abs [] q n e = absurd (n (unfold expand in cc e))
  expand-abs (c ∷ rest) q n e = path-abs c rest q e

  derive-abs :
      (p dir name q : Text)
      → os.abs dir ≡ some dir
      → derive os p dir name ≡ ok q
      → os.abs q ≡ some q
  unfolding derive
  derive-abs [] dir name q d e =
      let one : os.join (dir ∷ name ∷ []) ≡ q = cc e in
      subst (λ x. os.abs x ≡ some x) one (joined dir name d)
  derive-abs (c ∷ p) dir name q d e = path-abs c p q e

  -- What Load resolves its paths from.
  load-abs :
      (v : Viper) (file : Text) (c : Config)
      → load os v file ≡ ok c
      → c.state_dir ≢ []
      → ((default : Text) × (default_state_dir os ≡ ok default))
        × (os.abs c.state_dir ≡ some c.state_dir)
        × (os.abs c.socket ≡ some c.socket)
        × (os.abs c.database ≡ some c.database)
  unfolding load
  load-abs v file c e n =
      let (default, e1, e2) = bind-ok (default_state_dir os) _ c e in
      let (u, e3, e4) = bind-ok (read_config os v file) _ c e2 in
      let (d, e5, e6) = bind-ok (expand os (v.get_string (codes "state_dir") default)) _ c e4 in
      let (s, e7, e8) =
        bind-ok (derive os (v.get_string (codes "socket") []) d (codes "sonata.sock")) _ c e6 in
      let (b, e9, e10) =
        bind-ok (derive os (v.get_string (codes "database") []) d (codes "sonata.db")) _ c e8 in
      let fields : (d ≡ c.state_dir) × (s ≡ c.socket) × (b ≡ c.database) =
        (cc e10, cc e10, cc e10) in
      let dir =
        expand-abs (v.get_string (codes "state_dir") default) d
          (subst (λ x. x ≢ []) (sym fields.0) n) e5 in
      (
        (default, e1),
        subst (λ x. os.abs x ≡ some x) fields.0 dir,
        subst (λ x. os.abs x ≡ some x) fields.1
            (derive-abs (v.get_string (codes "socket") []) d (codes "sonata.sock") s dir e7),
        subst (λ x. os.abs x ≡ some x) fields.2
            (derive-abs (v.get_string (codes "database") []) d (codes "sonata.db") b dir e9),
      )

  module _ (print : Printer) (parent child : Viper) (file : Text) (c : Config)
      (strings : (key value default : Text)
        → lookup (variable key) (env print c) ≡ some value
        → value ≢ []
        → child.get_string key default ≡ value)
      (durations : (key : Text) (d default : ℤ)
        → lookup (variable key) (env print c) ≡ some (print.duration_text d)
        → child.get_duration key default ≡ d)
      (ints : (key : Text) (n default : ℤ)
        → lookup (variable key) (env print c) ≡ some (print.itoa n)
        → child.get_int key default ≡ n) where
    -- Where Abs gives rooted paths that it leaves as they are, and Join keeps them so; where the
    -- child's viper reads a non-empty variable in place of its default, and reads back the durations
    -- and numbers that were printed: a child that gets the environment of a configuration that Load
    -- has resolved, with a state directory and a log level that are not empty, and whose own
    -- configuration file can be read or is missing, resolves the same configuration.
    pub load-env :
        load os parent file ≡ ok c
        → c.state_dir ≢ []
        → c.log_level ≢ []
        → read_config os child [] ≡ ok tt
        → load os child [] ≡ ok c
    unfolding load env same
    load-env e dir level readable =
        let ((default, e1), d, s, b) = load-abs parent file c e dir in
        let state_dir = strings (codes "state_dir") c.state_dir default refl dir in
        let socket = strings (codes "socket") c.socket [] refl (abs_not_empty c.socket s) in
        let database = strings (codes "database") c.database [] refl (abs_not_empty c.database b) in
        rw
          (
            e1,
            readable,
            state_dir,
            expand-fixed c.state_dir d,
            socket,
            derive-fixed c.socket c.state_dir (codes "sonata.sock") s,
            database,
            derive-fixed c.database c.state_dir (codes "sonata.db") b,
            strings (codes "log_level") c.log_level (codes "info") refl level,
            durations (codes "idle_timeout") c.idle_timeout (pos 0) refl,
            ints (codes "max_hops") c.max_hops (pos 100) refl,
            ints (codes "default_max_attempts") c.default_max_attempts (pos 3) refl,
            durations (codes "default_task_timeout") c.default_task_timeout (pos 300000000000) refl,
            durations (codes "backoff_base") c.backoff_base (pos 1000000000) refl,
            durations (codes "backoff_cap") c.backoff_cap (pos 60000000000) refl,
            ints (codes "stdout_cap") c.stdout_cap (pos 4194304) refl,
          )
          refl
