-- ===== src/Config.antt =====
-- internal/config/config.go: resolving the settings, and passing them on to the daemon.
-- viper, the file system and the environment are parameters. A setting that viper reads is a
-- function of its key and its default; a duration is a number of nanoseconds.
pub mod Propagation
use sonata.Prelude.{
  ◌>>◌, true, false, ℕ, ◌∷◌, [], List, ◌++◌, Bool, Option, none, some, Text, codes, is_empty,
  Result, ok, err, ◌>>=◌, if◌then◌else◌, ◌==◌,
}
use sonata.Prelude.Int.{ℤ, pos}

pub record Config : Type 0 where
  pub state_dir : Text
  pub socket : Text
  pub database : Text
  pub log_level : Text
  pub idle_timeout : ℤ
  pub max_hops : ℤ
  pub default_max_attempts : ℤ
  pub default_task_timeout : ℤ
  pub backoff_base : ℤ
  pub backoff_cap : ℤ
  pub stdout_cap : ℤ

-- The operating system and path/filepath. `home` is os.UserHomeDir, an unset variable is empty.
pub record System : Type 0 where
  pub xdg_state_home : Text
  pub xdg_config_home : Text
  pub home : Option Text
  pub join : List Text → Text
  pub abs : Text → Option Text

pub data ReadConfig : Type 0 where
  read not_found unreadable : ReadConfig

-- A viper instance: a value by its key and default; ReadInConfig of a given file, and by search in
-- the working directory and, where it is known, the user's directory.
pub record Viper : Type 0 where
  pub get_string : Text → Text → Text
  pub get_duration : Text → ℤ → ℤ
  pub get_int : Text → ℤ → ℤ
  pub read_file : Text → ReadConfig
  pub search : Option Text → ReadConfig

-- strconv.Itoa and the String method of a duration.
pub record Printer : Type 0 where
  pub itoa : ℤ → Text
  pub duration_text : ℤ → Text

pub data ConfigError : Type 0 where
  no_home no_absolute_path unreadable_config : ConfigError

-- Config.Env, each entry as its name and its value.
unfoldable pub env : Printer → Config → List (Text × Text)
env print c =
    (codes "SONATA_STATE_DIR", c.state_dir)
    ∷ (codes "SONATA_SOCKET", c.socket)
    ∷ (codes "SONATA_DATABASE", c.database)
    ∷ (codes "SONATA_LOG_LEVEL", c.log_level)
    ∷ (codes "SONATA_IDLE_TIMEOUT", print.duration_text c.idle_timeout)
    ∷ (codes "SONATA_MAX_HOPS", print.itoa c.max_hops)
    ∷ (codes "SONATA_DEFAULT_MAX_ATTEMPTS", print.itoa c.default_max_attempts)
    ∷ (codes "SONATA_DEFAULT_TASK_TIMEOUT", print.duration_text c.default_task_timeout)
    ∷ (codes "SONATA_BACKOFF_BASE", print.duration_text c.backoff_base)
    ∷ (codes "SONATA_BACKOFF_CAP", print.duration_text c.backoff_cap)
    ∷ (codes "SONATA_STDOUT_CAP", print.itoa c.stdout_cap)
    ∷ []

-- LockPath, StartLockPath and LogPath.
unfoldable pub lock_path : System → Config → Text
lock_path os c = os.join (c.state_dir ∷ codes "sonata.lock" ∷ [])

unfoldable pub start_lock_path : System → Config → Text
start_lock_path os c = os.join (c.state_dir ∷ codes "sonata.start.lock" ∷ [])

unfoldable pub log_path : System → Config → Text
log_path os c = os.join (c.state_dir ∷ codes "daemon.log" ∷ [])

-- A directory of the XDG specification, or one under the home directory.
unfoldable pub under_home : System → List Text → Option Text → Result ConfigError Text
under_home os parts none = err no_home
under_home os parts (some home) = ok (os.join (home ∷ parts))

unfoldable pub default_state_dir : System → Result ConfigError Text
unfolding under_home
default_state_dir os =
    if is_empty os.xdg_state_home
    then under_home os (codes ".local" ∷ codes "state" ∷ codes "sonata" ∷ []) os.home
    else ok (os.join (os.xdg_state_home ∷ codes "sonata" ∷ []))

unfoldable pub user_config_dir : System → Result ConfigError Text
unfolding under_home
user_config_dir os =
    if is_empty os.xdg_config_home
    then under_home os (codes ".config" ∷ codes "sonata" ∷ []) os.home
    else ok (os.join (os.xdg_config_home ∷ codes "sonata" ∷ []))

unfoldable pub absolute : System → Text → Result ConfigError Text
absolute os p = elim (os.abs p) [ none ↦ err no_absolute_path | some q ↦ ok q ]

-- expand: a leading ~ stands for the home directory.
unfoldable pub expand : System → Text → Result ConfigError Text
unfolding under_home absolute
expand os [] = ok []
expand os (c ∷ rest) =
    if c == 126
    then (do p ← under_home os (rest ∷ []) os.home; absolute os p)
    else absolute os (c ∷ rest)

unfoldable pub derive : System → Text → Text → Text → Result ConfigError Text
unfolding expand
derive os [] state_dir name = ok (os.join (state_dir ∷ name ∷ []))
derive os (c ∷ explicit) state_dir name = expand os (c ∷ explicit)

unfoldable pub some_dir : Result ConfigError Text → Option Text
some_dir (ok dir) = some dir
some_dir (err e) = none

-- A missing file is an error only where it was asked for.
unfoldable pub read_error : Bool → ReadConfig → Bool
read_error asked read = false
read_error asked not_found = asked
read_error asked unreadable = true

unfoldable pub read_config : System → Viper → Text → Result ConfigError (Unit {0})
unfolding user_config_dir some_dir read_error
read_config os v [] =
    if read_error false (v.search (some_dir (user_config_dir os)))
    then err unreadable_config
    else ok tt
read_config os v (c ∷ file) =
    if read_error true (v.read_file (c ∷ file)) then err unreadable_config else ok tt

-- Load.
unfoldable pub load : System → Viper → Text → Result ConfigError Config
unfolding default_state_dir read_config expand derive
load os v cfg_file = do
  default_dir ← default_state_dir os
  read_config os v cfg_file
  state_dir ← expand os (v.get_string (codes "state_dir") default_dir)
  socket ← derive os (v.get_string (codes "socket") []) state_dir (codes "sonata.sock")
  database ← derive os (v.get_string (codes "database") []) state_dir (codes "sonata.db")
  ok (record {
    state_dir = state_dir;
    socket = socket;
    database = database;
    log_level = v.get_string (codes "log_level") (codes "info");
    idle_timeout = v.get_duration (codes "idle_timeout") (pos 0);
    max_hops = v.get_int (codes "max_hops") (pos 100);
    default_max_attempts = v.get_int (codes "default_max_attempts") (pos 3);
    default_task_timeout = v.get_duration (codes "default_task_timeout") (pos 300000000000);
    backoff_base = v.get_duration (codes "backoff_base") (pos 1000000000);
    backoff_cap = v.get_duration (codes "backoff_cap") (pos 60000000000);
    stdout_cap = v.get_int (codes "stdout_cap") (pos 4194304);
  })
