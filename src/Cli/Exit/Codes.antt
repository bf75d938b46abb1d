-- ===== src/Cli/Exit/Codes.antt =====
-- Which exit code of cmd/ngntun/main.go stands for which failure of the calls of internal/sip.
use ngntun.Base.Int.{ℤ}
use ngntun.Base.{
  ℕ, ◌||◌, ◌≡◌, ◌⊎◌, inl, inr, refl, ap, sym, ◌∙◌, if◌then◌else◌, bytes_eq, Bool-cases, ok, err,
  err_injective,
}
use ngntun.Cli.Exit.{exit_auth_required, exit_register, exit_code_for}
use ngntun.Sip.Expires.{registered_expires, seconds}
use ngntun.Sip.Message.{Message, is_success}
use ngntun.Sip.Failure.{Failure, auth_failure, status_failure}
use ngntun.Sip.Outgoing.{is_status, register_result}
use ngntun.Sip.Response.{method_register}

-- the exit code that the answer to REGISTER calls for
abbrev pub register_code : Message → ℕ
register_code resp =
    if is_status 401 resp || is_status 407 resp then exit_auth_required else exit_register

register_result-cases :
    (expires : ℕ) (resp : Message)
    → ((l : ℤ) × (register_result expires resp ≡ ok l))
      ⊎ (((register_code resp ≡ exit_auth_required)
            × (register_result expires resp ≡ err auth_failure))
          ⊎ ((register_code resp ≡ exit_register)
              × (register_result expires resp
                  ≡ err (
                      status_failure (record {
                        method = method_register;
                        status = resp.status;
                        reason = resp.reason;
                      })))))
unfolding register_result
register_result-cases expires resp = elim (Bool-cases (is_success resp)) [
  | inl q ↦ inl (registered_expires resp (seconds expires), rw (register_result, q) refl)
  | inr q ↦ elim (Bool-cases (is_status 401 resp || is_status 407 resp)) [
    | inl q' ↦ inr (inl (rw (register_code, q') refl, rw (register_result, q, q') refl))
    | inr q' ↦ inr (inr (rw (register_code, q') refl, rw (register_result, q, q') refl))
  ]
]

-- An answer to REGISTER that is no success ends the program with the code for it: 7 if the status is
-- 401 or 407, which ask for an authentication, and 3 for any other.
pub register_result-exit_code :
    (expires : ℕ) (resp : Message) {e : Failure}
    → register_result expires resp ≡ err e
    → exit_code_for e ≡ register_code resp
unfolding exit_code_for status_failure bytes_eq
register_result-exit_code expires resp {e} h = elim (register_result-cases expires resp) [
  | inl (l, q) ↦ cc (q, h)
  | inr (inl (code, q)) ↦ ap exit_code_for (err_injective _ h q) ∙ sym code
  | inr (inr (code, q)) ↦ ap exit_code_for (err_injective _ h q) ∙ sym code
]
