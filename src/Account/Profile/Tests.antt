-- ===== src/Account/Profile/Tests.antt =====
-- Examples for the forms of the profile.
use release_ops.Common.{◌≡◌, refl, String, true, false, none, some}
use release_ops.Common.Text.{trim}
use release_ops.Common.Json.{Value}
use release_ops.Http.Client
use release_ops.Account.Profile.{
  EmailForm, PasswordChange, handle_email_change, handle_password_change,
}
use release_ops.Account.Profile.Laws.{
  EmailEnd, PasswordEnd, handle_email_change-ends, handle_password_change-ends,
}

abbrev any_text : Value → String
any_text v = "{}"

abbrev done : Client.ApiResponse
done = record { ok = true; status = 204; status_text = "No Content"; json = Client.malformed }

abbrev answering : Client.Fetch
answering init = Client.answered done

abbrev email_form : EmailForm
email_form = record {
  new_email = " ann@ops.example ";
  email_current_password = "s3cret";
  email_validation_error = none;
  email_change_error = some "changeEmail.failed";
  email_change_pending = false;
}

-- The request goes out, and the form is empty.
email_sent : (handle_email_change any_text answering email_form).email_change_pending ≡ true
unfolding handle_email_change trim Client.post Client.request Client.read_response
email_sent = refl

handle_email_change-ends_example :
    EmailEnd any_text answering email_form (handle_email_change any_text answering email_form)
handle_email_change-ends_example = handle_email_change-ends any_text answering email_form

abbrev password_form : PasswordChange
password_form = record {
  current_password = "s3cret";
  new_password = "correct horse";
  confirm_password = "correct house";
  password_validation_error = none;
  password_change_error = none;
  password_change_success = true;
}

-- A confirmation that differs is refused.
password_refused :
    (handle_password_change any_text answering password_form).password_validation_error
    ≡ some "changePassword.validation.passwordMismatch"
unfolding handle_password_change
password_refused = refl

handle_password_change-ends_example :
    PasswordEnd any_text answering password_form
      (handle_password_change any_text answering password_form)
handle_password_change-ends_example = handle_password_change-ends any_text answering password_form
