-- ===== src/Cli/Main.antt =====
-- `run` of cmd/ngntun/main.go: from the options to the exit code.
pub mod Starting
use ngntun.Base.Int.{ℤ, pos}
use ngntun.Base.{Bool, Option, none, some, if◌then◌else◌, Bytes, Result, ok, err}
use ngntun.Cli.Config.{ConfigError, SessionConfig, build_config}
use ngntun.Cli.Exit.{exit_config, exit_ok, exit_usage, run_exit}
use ngntun.Cli.Options.{Options}
use ngntun.Cli.Source.{Host}
use ngntun.Cli.Values.{new_logger}
use ngntun.Lease.Load.{Files, LoadError, load_v4, load_v6}
use ngntun.Netip.{NetipText}
use ngntun.Session.Supervise.{Reason}
use ngntun.Sip.Failure.{Failure}

-- a lease that cannot be read is only logged
abbrev pub or_missing : {A : Type 0} → Result LoadError A → Option A
or_missing (ok v) = some v
or_missing (err e) = none

-- What `session.Run` returns: the reason and the exit code of the command, if there is a result, and
-- the error.
abbrev pub Outcome : Type 0
Outcome = Option (Reason × ℤ) × Option Failure

-- the exit code, and the session that was run
pub record Exited : Type 0 where
  pub code : ℤ
  pub session : Option SessionConfig

module _ (text : NetipText) where
  -- `buildConfig` with the two lease files
  unfoldable pub read_config : Files → Options → Host → Result ConfigError SessionConfig
  unfolding build_config load_v6 load_v4
  read_config files opt host =
      build_config text opt (or_missing (load_v6 files opt.lease_path))
        (or_missing (load_v4 files opt.lease4_path)) host

  -- `run`, for the result of `session.Run` on a configuration
  unfoldable pub run : Files → Options → Host → (SessionConfig → Outcome) → Exited
  unfolding new_logger read_config run_exit
  run files opt host session = elim (new_logger opt.log_level opt.log_format) [
    | none ↦ record { code = pos exit_usage; session = none }
    | some l ↦ elim (read_config files opt host) [
      | err e ↦ record { code = pos exit_config; session = none }
      | ok cfg ↦
          if opt.dry_run
          then record { code = pos exit_ok; session = none }
          else let (result, error) = session cfg in
            record { code = run_exit result error; session = some cfg }
    ]
  ]
