-- ===== src/Account/Tests.antt =====
-- Examples for the login form and for the forms that set a password.
use release_ops.Common.{◌≤◌, ◌≡◌, refl, String, true, none, some}
use release_ops.Common.Json.{Value, obj, no_field}
use release_ops.Http.Client
use release_ops.Session.SafeRedirect.{UrlParser, Resolved, safe_redirect_path}
use release_ops.Common.Text.{starts_with}
use release_ops.Account.{
  accept_invitation, password_path, login_body, password_body, submit_login, submit_password, units,
}
use release_ops.Account.Laws.{
  Accepted, posted, submit_login-destination, submit_password-destination,
}

abbrev any_text : Value → String
any_text v = "{}"

abbrev welcome : Client.ApiResponse
welcome = record {
  ok = true;
  status = 200;
  status_text = "OK";
  json = Client.parsed (obj no_field);
}

abbrev welcoming : Client.Fetch
welcoming init = Client.answered welcome

abbrev repos_page : Resolved
repos_page = record {
  origin = "http://internal.invalid";
  pathname = "/repos";
  search = "";
  hash = "";
}

abbrev to_repos : UrlParser
to_repos value origin = some repos_page

logged_in :
    (submit_login any_text welcoming to_repos
      (some "/repos")
      "ann@ops.example"
      "s3cret").destination
    ≡ some "/repos"
unfolding submit_login Client.post safe_redirect_path Client.build_url starts_with Client.request
logged_in = refl

submit_login-destination_example :
    Accepted (posted any_text welcoming "/auth/login" (login_body "ann@ops.example" "s3cret"))
    × ("/repos" ≡ safe_redirect_path to_repos (some "/repos"))
    × ((submit_login any_text welcoming to_repos (some "/repos") "ann@ops.example" "s3cret").error
        ≡ none)
submit_login-destination_example =
    submit_login-destination any_text welcoming to_repos (some "/repos") "ann@ops.example" "s3cret"
      "/repos" logged_in

abbrev twice : String
twice = "correct horse"

abbrev home : String
home = "/"

password_set :
    (submit_password any_text welcoming accept_invitation "t1" "correct horse"
      "correct horse").destination
    ≡ some "/"
unfolding submit_password Client.post Client.build_url starts_with Client.request
password_set = refl

submit_password-destination_example :
    (8 ≤ units "correct horse")
    × (twice ≡ twice)
    × Accepted (
        posted any_text welcoming
          (password_path accept_invitation)
          (password_body "t1" "correct horse"))
    × (home ≡ home)
submit_password-destination_example =
    submit_password-destination any_text welcoming accept_invitation "t1" "correct horse"
      "correct horse" "/" password_set
