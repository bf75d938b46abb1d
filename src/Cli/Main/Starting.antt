-- ===== src/Cli/Main/Starting.antt =====
-- Which sessions `run` of cmd/ngntun/main.go starts, and with which code it exits.
use ngntun.Base.Int.{pos}
use ngntun.Base.{
  ok, err, Bool, true, false, none, some, ◌≡◌, ◌⊎◌, inl, inr, refl, subst, Option-cases,
  Result-cases, some_injective, if◌then◌else◌,
}
use ngntun.Cli.Config.Ready.{IsReady, build_config-IsReady}
use ngntun.Cli.Config.{ConfigError, SessionConfig}
use ngntun.Cli.Exit.{exit_ok, run_exit}
use ngntun.Cli.Main.{Exited, Outcome, or_missing, read_config, run}
use ngntun.Cli.Options.{Options}
use ngntun.Cli.Source.{Host}
use ngntun.Cli.Values.{new_logger}
use ngntun.Lease.Load.{Files, load_v4, load_v6}
use ngntun.Netip.{NetipText}

-- What `run` has done.
pub record Starts (text : NetipText) (files : Files) (opt : Options) (host : Host)
    (session : SessionConfig → Outcome) (x : Exited) : Type 0 where
  pub starts :
      {cfg : SessionConfig}
      → x.session ≡ some cfg
      → (read_config text files opt host ≡ ok cfg)
        × IsReady opt cfg
        × (opt.dry_run ≡ false)
        × (x.code ≡ run_exit (session cfg).0 (session cfg).1)
  pub stays :
      x.session ≡ none
      → ((new_logger opt.log_level opt.log_format ≡ none) × (x.code ≡ pos 1))
        ⊎ (((e : ConfigError) × (read_config text files opt host ≡ err e) × (x.code ≡ pos 2))
            ⊎ ((cfg : SessionConfig) × (read_config text files opt host ≡ ok cfg)
                × (opt.dry_run ≡ true)
                × (x.code ≡ pos 0)))

-- the test of the dry run, of a configuration that is ready
dry_run-Starts :
    (text : NetipText) (files : Files) (opt : Options) (host : Host)
    (session : SessionConfig → Outcome) (cfg : SessionConfig)
    → read_config text files opt host ≡ ok cfg
    → IsReady opt cfg
    → (b : Bool) → opt.dry_run ≡ b
    → Starts text files opt host session (
        if b
        then record { code = pos exit_ok; session = none }
        else record { code = run_exit (session cfg).0 (session cfg).1; session = some cfg })
dry_run-Starts text files opt host session cfg read good true d = record {
  starts = λ e. cc;
  stays = λ e. inr (inr (cfg, read, d, refl));
}
dry_run-Starts text files opt host session cfg read good false d = record {
  starts = λ {cfg = c'} e.
      subst
        (λ (c : SessionConfig).
          (read_config text files opt host ≡ ok c)
          × IsReady opt c
          × (opt.dry_run ≡ false)
          × (run_exit (session cfg).0 (session cfg).1 ≡ run_exit (session c).0 (session c).1))
        (some_injective e) (read, good, d, refl);
  stays = λ e. cc;
}

read_config-IsReady :
    (text : NetipText) (files : Files) (opt : Options) (host : Host) {cfg : SessionConfig}
    → read_config text files opt host ≡ ok cfg
    → IsReady opt cfg
unfolding read_config
read_config-IsReady text files opt host q =
    build_config-IsReady text opt (or_missing (load_v6 files opt.lease_path))
      (or_missing (load_v4 files opt.lease4_path)) host q

-- A session is started only on the configuration that the options and the leases make, which is
-- ready, never in a dry run, and gives the exit code. Where none is started, the code is 1 and the
-- logging options are wrong, or 2 and there is no configuration, or 0 and there is one but the run
-- is a dry one.
pub run-Starts :
    (text : NetipText) (files : Files) (opt : Options) (host : Host)
    (session : SessionConfig → Outcome)
    → Starts text files opt host session (run text files opt host session)
unfolding run
run-Starts text files opt host session =
    elim (Option-cases (new_logger opt.log_level opt.log_format)) [
      | inl q ↦ rw (q, run) (record { starts = λ e. cc; stays = λ e. inl (q, refl) })
      | inr (l, q) ↦ elim (Result-cases (read_config text files opt host)) [
        | inr (e, q') ↦
            rw (q, q', run) (record { starts = λ e. cc; stays = λ z. inr (inl (e, q', refl)) })
        | inl (cfg, q') ↦
            rw (q, q', run)
              (dry_run-Starts text files opt host session cfg q'
                (read_config-IsReady text files opt host q') opt.dry_run refl)
      ]
    ]
