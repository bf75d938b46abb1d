-- ===== src/Sip/Failure.antt =====
-- The errors of internal/sip/ua.go that the exit code of the program depends on.
use ngntun.Base.Int.{ℤ}
use ngntun.Base.{Bool, true, false, Option, none, some, ◌∷◌, ◌++◌, Bytes, codes}
use ngntun.Text.Decimal.{format_int}

-- An `error`: whether `errors.Is` finds ErrAuthRequired in it, the StatusError that `errors.As`
-- finds, and the text of `Error`.
pub record StatusError : Type 0 where
  pub method : Bytes
  pub status : ℤ
  pub reason : Bytes

pub record Failure : Type 0 where
  pub auth_required : Bool
  pub status_error : Option StatusError
  pub text : Bytes

-- an error of another kind, by its text
abbrev pub plain : Bytes → Failure
plain text = record { auth_required = false; status_error = none; text = text }

abbrev pub auth_failure : Failure
auth_failure = record {
  auth_required = true;
  status_error = none;
  text = codes "HGW が SIP の Digest 認証を要求しています。ngntun は未対応です (検証環境では認証なしで登録できていました)";
}

-- a StatusError, with its `Error`
unfoldable pub status_failure : StatusError → Failure
unfolding format_int
status_failure e = record {
  auth_required = false;
  status_error = some e;
  text =
      e.method ++ (codes " が " ++ (format_int e.status ++ (b' ' ∷ (e.reason ++ codes " で失敗しました"))));
}

-- `fmt.Errorf("…: %w", err)`
unfoldable pub wrapped : Bytes → Failure → Failure
wrapped prefix e = record e { text = prefix ++ (codes ": " ++ e.text) }
