-- ===== src/Session/Runner.antt =====
-- The process of a session's command, internal/session/command.go. What the package os/exec does
-- with a command is an argument: whether it starts, and what its `Wait` returns.
use ngntun.Base.{
  ℕ, ◌*◌, Bool, true, false, List, ◌∷◌, ◌++◌, Option, none, some, if◌then◌else◌, Bytes,
}
use ngntun.Netip.{NetipText}
use ngntun.Session.Command.{CommandResult, EnvConfig, WaitStatus, command_env, command_result_of}

-- in nanoseconds
abbrev pub command_kill_delay : ℕ
command_kill_delay = 5 * 1000000000

abbrev pub sigterm : ℕ
sigterm = 15

-- the fields of `exec.Cmd` that are set: `cancel` is the signal that the end of the context sends
pub record Cmd : Type 0 where
  pub args : List Bytes
  pub env : List Bytes
  pub cancel : ℕ
  pub wait_delay : ℕ

-- `commandRunner`: the result is there once the channel is closed
pub record CommandRunner : Type 0 where
  pub cmd : Cmd
  pub exited : Option CommandResult

-- `startCommand`, for a command of the program `name`
unfoldable pub start_command :
    NetipText → (Cmd → Bool) → List Bytes → EnvConfig → Bytes → List Bytes → Option CommandRunner
unfolding command_env
start_command text starts environ cfg name args =
    let cmd : Cmd = record {
      args = name ∷ args;
      env = environ ++ command_env text cfg;
      cancel = sigterm;
      wait_delay = command_kill_delay;
    } in
    if starts cmd then some (record { cmd = cmd; exited = none }) else none

-- the goroutine of `startCommand`, once `cmd.Wait` has returned
unfoldable pub reap : WaitStatus → CommandRunner → CommandRunner
unfolding command_result_of
reap status r = record r { exited = some (command_result_of status) }

-- whether a receive from `Exited` goes on: without a command it never does
unfoldable pub is_exited : Option CommandRunner → Bool
is_exited none = false
is_exited (some r) = elim r.exited [ none ↦ false | some x ↦ true ]

-- `Wait`: none as long as it waits
unfoldable pub wait : CommandRunner → Option CommandResult
wait r = r.exited
