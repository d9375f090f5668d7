-- ===== src/Account/Profile.antt =====
-- apps/web/components/profile/profile-view.tsx and apps/web/hooks/useProfile.ts: the forms that change
-- the email and the password of the user. A message is its key, or the text of the server.
pub mod Laws
mod Tests
use Prim.Native.String
use release_ops.Common.{
  ℕ, String, ◌==◌, Bool, true, false, not, ◌||◌, Option, none, some, if◌then◌else◌, eqb, ltb,
}
use release_ops.Common.Text.{is_empty_text, trim}
use release_ops.Common.Json.{Value, str, obj, field, no_field}
use release_ops.Http.Client
use release_ops.Http.Client.{
  ClientError, api_error, abort_error, network_error, Outcome, returned, threw,
}
use release_ops.Account.{is_code, units}

-- The fields and messages of the form for the email.
pub record EmailForm : Type 0 where
  pub new_email : String
  pub email_current_password : String
  pub email_validation_error : Option String
  pub email_change_error : Option String
  pub email_change_pending : Bool

pub record PasswordChange : Type 0 where
  pub current_password : String
  pub new_password : String
  pub confirm_password : String
  pub password_validation_error : Option String
  pub password_change_error : Option String
  pub password_change_success : Bool

abbrev pub resolve_email_error : ClientError → String
resolve_email_error (api_error code message status) =
    if eqb status 503
    then "changeEmail.smtpNotConfigured"
    else if eqb status 401
    then "changeEmail.invalidPassword"
    else message
resolve_email_error abort_error = "changeEmail.failed"
resolve_email_error network_error = "changeEmail.failed"

abbrev pub resolve_change_error : ClientError → String
resolve_change_error (api_error code message status) =
    if eqb status 401
    then "changePassword.invalidPassword"
    else if eqb status 429 || is_code code "RATE_LIMITED"
    then "changePassword.rateLimited"
    else message
resolve_change_error abort_error = "changePassword.failed"
resolve_change_error network_error = "changePassword.failed"

abbrev pub email_path : String
email_path = "/users/me/email-change-request"

abbrev pub email_body : String → String → Value
email_body email password =
    obj (field "newEmail" (str email) (field "currentPassword" (str password) no_field))

abbrev pub change_path : String
change_path = "/users/me/password-change"

abbrev pub change_body : String → String → Value
change_body current next =
    obj (field "currentPassword" (str current) (field "newPassword" (str next) no_field))

-- The messages that go when the handler starts.
abbrev pub start_email : EmailForm → EmailForm
start_email s = record s {
  email_validation_error = none;
  email_change_error = none;
  email_change_pending = false;
}

abbrev pub finish_email : EmailForm → Outcome → EmailForm
finish_email s (returned v) = record s {
  new_email = "";
  email_current_password = "";
  email_change_pending = true;
}
finish_email s (threw error) = record s { email_change_error = some (resolve_email_error error) }

-- `validatePasswordForm`
unfoldable pub validate_password_form : PasswordChange → Option String
unfolding units
validate_password_form s =
    if is_empty_text s.current_password
    then some "changePassword.validation.currentPasswordRequired"
    else if is_empty_text s.new_password
    then some "changePassword.validation.newPasswordRequired"
    else if ltb (units s.new_password) 8
    then some "changePassword.validation.newPasswordTooShort"
    else if is_empty_text s.confirm_password
    then some "changePassword.validation.confirmPasswordRequired"
    else if not (s.new_password == s.confirm_password)
    then some "changePassword.validation.passwordMismatch"
    else none

abbrev pub start_change : PasswordChange → PasswordChange
start_change s = record s { password_change_error = none; password_change_success = false }

abbrev pub finish_change : PasswordChange → Outcome → PasswordChange
finish_change s (returned v) = record s {
  password_change_success = true;
  current_password = "";
  new_password = "";
  confirm_password = "";
}
finish_change s (threw error) = record s {
  password_change_error = some (resolve_change_error error);
}

module _ (stringify : Value → String) (fetch : Client.Fetch) where
  abbrev pub request_email_change : EmailForm → Outcome
  request_email_change s =
      Client.post stringify fetch email_path
        (some (email_body (trim s.new_email) s.email_current_password))

  unfoldable pub handle_email_change : EmailForm → EmailForm
  handle_email_change s =
      if is_empty_text (trim s.new_email)
      then record (start_email s) {
        email_validation_error = some "changeEmail.validation.newEmailRequired";
      }
      else if is_empty_text s.email_current_password
      then record (start_email s) {
        email_validation_error = some "changeEmail.validation.passwordRequired";
      }
      else finish_email (start_email s) (request_email_change s)

  abbrev pub change_password : PasswordChange → Outcome
  change_password s =
      Client.post stringify fetch change_path (some (change_body s.current_password s.new_password))

  abbrev pub send_change : PasswordChange → Option String → PasswordChange
  send_change s (some error) = record (start_change s) { password_validation_error = some error }
  send_change s none =
      finish_change (record (start_change s) { password_validation_error = none })
        (change_password s)

  unfoldable pub handle_password_change : PasswordChange → PasswordChange
  unfolding validate_password_form
  handle_password_change s = send_change s (validate_password_form s)
