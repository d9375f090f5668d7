-- ===== src/Account.antt =====
-- apps/web/app/login, accept-invitation, reset-password and forgot-password: the forms that sign a
-- user in, set a password and ask for a new one, on top of the client. A message is its key.
pub mod Laws
pub mod Profile
pub mod Confirm
mod Tests
use Prim.Native.String.{[], ◌∷◌}
use release_ops.Common.{
  ℕ, ◌+◌, code, String, ◌==◌, Bool, true, false, not, ◌&&◌, ◌||◌, Option, none, some, if◌then◌else◌,
  eqb, ltb, leb,
}
use release_ops.Common.Text.{is_empty_text, includes}
use release_ops.Common.Json.{Value, str, obj, field, no_field}
use release_ops.Http.Client
use release_ops.Http.Client.{
  ClientError, api_error, abort_error, network_error, Outcome, returned, threw,
}
use release_ops.Session.SafeRedirect.{UrlParser, safe_redirect_path}

-- `error.code === text`
abbrev pub is_code : Value → String → Bool
is_code (str s) text = s == text
is_code _ text = false

unfoldable pub resolve_login_error : ClientError → String
resolve_login_error (api_error code message status) =
    if eqb status 429 || is_code code "RATE_LIMITED"
    then "rateLimited"
    else if eqb status 401 || is_code code "invalid_credentials"
    then "invalidCredentials"
    else "loginFailed"
resolve_login_error abort_error = "loginFailed"
resolve_login_error network_error = "loginFailed"

-- `resolveAuthError` of the forms that set a password.
unfoldable pub resolve_password_error : ClientError → String
resolve_password_error (api_error code message status) =
    if eqb status 429 || is_code code "RATE_LIMITED"
    then "rateLimited"
    else if is_code code "VALIDATION_ERROR" && includes message "invalid or expired token"
    then "invalidToken"
    else if is_code code "VALIDATION_ERROR" && includes message "at least 8 characters"
    then "passwordTooShort"
    else "requestFailed"
resolve_password_error abort_error = "requestFailed"
resolve_password_error network_error = "requestFailed"

-- `resolveAuthError` of the form that asks for a new password.
unfoldable pub resolve_forgot_error : ClientError → String
resolve_forgot_error (api_error code message status) =
    if eqb status 429 || is_code code "RATE_LIMITED" then "rateLimited" else "requestFailed"
resolve_forgot_error abort_error = "requestFailed"
resolve_forgot_error network_error = "requestFailed"

-- `s.length`: the UTF-16 code units.
unfoldable pub units : String → ℕ
units [] = 0
units (c ∷ s) = (if leb 0x10000 (code c) then 2 else 1) + units s

-- What a form shows and where it leads: `setSubmitError`, `router.push`.
pub record Result : Type 0 where
  pub error : Option String
  pub destination : Option String

abbrev pub shows : String → Result
shows message = record { error = some message; destination = none }

abbrev pub leads : String → Result
leads path = record { error = none; destination = some path }

-- Which form sets the password; both send a token.
pub data PasswordForm : Type 0 where
  accept_invitation reset_password : PasswordForm

abbrev pub password_path : PasswordForm → String
password_path accept_invitation = "/auth/accept-invitation"
password_path reset_password = "/auth/reset-password"

abbrev pub login_body : String → String → Value
login_body email password =
    obj (field "email" (str email) (field "password" (str password) no_field))

abbrev pub password_body : String → String → Value
password_body token password =
    obj (field "token" (str token) (field "password" (str password) no_field))

abbrev pub forgot_body : String → Value
forgot_body email = obj (field "email" (str email) no_field)

-- The end of the login form's `handleSubmit`.
abbrev pub finish_login : UrlParser → Option String → Outcome → Result
finish_login parse redirect (returned v) = leads (safe_redirect_path parse redirect)
finish_login parse redirect (threw error) = shows (resolve_login_error error)

abbrev pub finish_password : Outcome → Result
finish_password (returned v) = leads "/"
finish_password (threw error) = shows (resolve_password_error error)

-- The form that asks for a new password shows a message of success instead of going elsewhere.
abbrev pub finish_forgot : Outcome → Option String × Bool
finish_forgot (returned v) = (none, true)
finish_forgot (threw error) = (some (resolve_forgot_error error), false)

module _ (stringify : Value → String) (fetch : Client.Fetch) where
  -- `handleSubmit` of the login form, with the query's redirect.
  unfoldable pub submit_login : UrlParser → Option String → String → String → Result
  unfolding resolve_login_error
  submit_login parse redirect email password =
      finish_login parse redirect
        (Client.post stringify fetch "/auth/login" (some (login_body email password)))

  -- `handleSubmit` of the forms that set a password. Without a token the page has no form.
  unfoldable pub submit_password : PasswordForm → String → String → String → Result
  unfolding units resolve_password_error
  submit_password form token password confirmation =
      if ltb (units password) 8
      then shows "passwordTooShort"
      else if not (password == confirmation)
      then shows "passwordMismatch"
      else finish_password
          (Client.post stringify fetch (password_path form) (some (password_body token password)))

  unfoldable pub submit_forgot : String → Option String × Bool
  unfolding resolve_forgot_error
  submit_forgot email =
      finish_forgot (Client.post stringify fetch "/auth/forgot-password" (some (forgot_body email)))
