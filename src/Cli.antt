-- ===== src/Cli.antt =====
-- internal/cli: the exit codes of root.go, and the commands in the children. cobra, the encoders and
-- the output streams are parameters; what the commands print is left out.
pub mod Lifecycle
pub mod Requests
pub mod Commands
pub mod Refusing
pub mod Exits
pub mod Stopping
pub mod Naming
pub mod Sending
pub mod Applying
use sonata.Prelude.{
  ℕ, Bool, true, false, ◌||◌, Text, codes, same, Result, ok, err, ◌>>=◌, ◌>>◌, if◌then◌else◌,
}
use sonata.Config.{Config, ConfigError}

-- The exit codes.
abbrev pub exit_ok : ℕ
exit_ok = 0

abbrev pub exit_not_running : ℕ
exit_not_running = 1

abbrev pub exit_usage : ℕ
exit_usage = 2

abbrev pub exit_operational : ℕ
exit_operational = 3

-- An exitError, by its code, or any other error.
pub data CmdError : Type 0 where
  exit_error : ℕ → CmdError
  plain_error : CmdError

-- Execute, from the result of the root command.
unfoldable pub execute : Result CmdError (Unit {0}) → ℕ
execute (ok u) = exit_ok
execute (err (exit_error code)) = code
execute (err plain_error) = exit_operational

pub data Format : Type 0 where
  table json : Format

-- How cobra reads the command line: a flag that it refuses goes through SetFlagErrorFunc, a wrong
-- number of arguments does not.
pub data CommandLine : Type 0 where
  parsed bad_flag bad_arguments : CommandLine

unfoldable pub output_format : Text → Result CmdError Format
output_format output =
    if same output (codes "table")
    then ok table
    else if same output (codes "json")
    then ok json
    else err (exit_error exit_usage)

unfoldable pub loaded : Result ConfigError Config → Result CmdError Config
loaded (ok cfg) = ok cfg
loaded (err e) = err (exit_error exit_operational)

-- PersistentPreRunE: `binds` is config.Bind, `load` config.Load.
unfoldable pub pre_run : Bool → Result ConfigError Config → Text → Result CmdError (Config × Format)
unfolding loaded output_format
pre_run binds load output =
    if binds
    then (do cfg ← loaded load; format ← output_format output; ok (cfg, format))
    else err (exit_error exit_operational)

-- The root command, with the command that it was given.
unfoldable pub run_root :
    CommandLine
    → Result CmdError (Config × Format)
    → (Config → Format → Result CmdError (Unit {0}))
    → Result CmdError (Unit {0})
run_root bad_flag ready command = err (exit_error exit_usage)
run_root bad_arguments ready command = err plain_error
run_root parsed ready command = ready >>= λ (cfg, format). command cfg format

-- writeJSON, and the Flush of a table.
unfoldable pub write_json : Bool → Result CmdError (Unit {0})
write_json true = ok tt
write_json false = err (exit_error exit_operational)

unfoldable pub flush : Bool → Result CmdError (Unit {0})
flush true = ok tt
flush false = err plain_error
