-- ===== src/Cli/Exit.antt =====
-- The exit codes of cmd/ngntun/main.go: `exitCodeFor` and the end of `run`.
pub mod Codes
use ngntun.Base.Int.{ℤ, pos}
use ngntun.Base.{ℕ, Bool, true, false, Option, none, some, if◌then◌else◌, Bytes, codes, bytes_eq}
use ngntun.Session.Supervise.{Reason, media_timeout, command_exit}
use ngntun.Sip.Failure.{Failure, StatusError}
use ngntun.Sip.Response.{method_invite, method_register}
use ngntun.Text.Find.{contains}

abbrev pub exit_ok : ℕ
exit_ok = 0

abbrev pub exit_usage : ℕ
exit_usage = 1

abbrev pub exit_config : ℕ
exit_config = 2

abbrev pub exit_register : ℕ
exit_register = 3

abbrev pub exit_invite : ℕ
exit_invite = 4

abbrev pub exit_media_timeout : ℕ
exit_media_timeout = 5

abbrev pub exit_runtime : ℕ
exit_runtime = 6

abbrev pub exit_auth_required : ℕ
exit_auth_required = 7

-- the text of the error, where its kind says nothing
exit_by_text : Bytes → ℕ
unfolding contains
exit_by_text text =
    if contains text (codes "REGISTER")
    then exit_register
    else if contains text (codes "INVITE")
    then exit_invite
    else exit_runtime

-- `exitCodeFor`
unfoldable pub exit_code_for : Failure → ℕ
unfolding exit_by_text bytes_eq
exit_code_for e = if e.auth_required then exit_auth_required else elim e.status_error [
  | none ↦ exit_by_text e.text
  | some s ↦
      if bytes_eq s.method method_register
      then exit_register
      else if bytes_eq s.method method_invite
      then exit_invite
      else exit_by_text e.text
]

-- The end of `run` from what `session.Run` returns: the reason and the exit code of the command in the
-- result, if there is one, and the error.
unfoldable pub run_exit : Option (Reason × ℤ) → Option Failure → ℤ
unfolding exit_code_for
run_exit r (some e) = pos (exit_code_for e)
run_exit none none = pos exit_ok
run_exit (some (media_timeout, code)) none = pos exit_media_timeout
run_exit (some (command_exit, code)) none = code
run_exit (some (reason, code)) none = pos exit_ok
