-- ===== src/Forms/Tests/Targets.antt =====
-- Examples for the drawers of integrations and of notification targets.
use release_ops.Common.{◌≡◌, refl, true, false, [], ◌∷◌, none, some}
use release_ops.Common.Text.{trim, is_empty_text}
use release_ops.Integrations.Kinds.{kind_requires_base_url, kind_token_optional, kind_is_jira}
use release_ops.Integrations.Secret.{build_integration_secret}
use release_ops.Forms.Base.{create, edit, call}
use release_ops.Forms.Integration
use release_ops.Forms.Integration.{
  normalize_base_url, strip_slashes, stored_base_url, IntegrationInput, submit, secret_required,
  first_error,
}
use release_ops.Forms.Integration.Laws.{submit-keeps_base_url}
use release_ops.Forms.Notification
use release_ops.Forms.Tests.{gitlab, chat}

abbrev editing : Integration.Props
editing = record { mode = edit; integration = some gitlab; is_open = true }

abbrev renamed : Integration.State
renamed = record {
  kind = "gitlab";
  name = " Git ";
  base_url = "https://git.example";
  email = "";
  secret = "";
  is_default = true;
  form_error = none;
}

abbrev renamed_input : IntegrationInput
renamed_input = record {
  name = "Git";
  base_url = some "https://git.example";
  is_default = some true;
}

renamed_call : submit editing renamed ≡ call (Integration.on_update "i1" renamed_input none)
unfolding submit first_error secret_required normalize_base_url strip_slashes trim
    kind_requires_base_url kind_token_optional kind_is_jira
renamed_call = refl

gitlab_has_url : kind_requires_base_url "gitlab" ≡ true
unfolding kind_requires_base_url
gitlab_has_url = refl

submit-keeps_base_url_example :
    (some "https://git.example" ≡ some (trim "https://git.example"))
    × (normalize_base_url (trim "https://git.example")
        ≡ normalize_base_url (stored_base_url (some gitlab)))
submit-keeps_base_url_example =
    submit-keeps_base_url editing renamed "i1" renamed_input renamed_call gitlab_has_url

abbrev adding : Integration.Props
adding = record { mode = create; integration = none; is_open = true }

abbrev new_linear : Integration.State
new_linear = record renamed { kind = "linear"; name = "Linear"; secret = " key " }

abbrev linear_input : IntegrationInput
linear_input = record { name = "Linear"; base_url = none; is_default = none }

linear_call :
    submit adding new_linear
    ≡ call
        (Integration.on_create "linear" linear_input (build_integration_secret "linear" "key" ""))
unfolding submit first_error secret_required trim kind_requires_base_url kind_token_optional
    kind_is_jira
linear_call = refl

linear_token : kind_token_optional "linear" ≡ false
unfolding kind_token_optional
linear_token = refl

abbrev watching : Notification.Props
watching = record { mode = edit; target = some chat; is_open = true }

abbrev unchanged : Notification.State
unchanged = record {
  name = "Chat";
  shoutrrr_url = "";
  events = "create" ∷ "error" ∷ [];
  enabled = true;
  form_error = none;
}

abbrev chat_call : Notification.Call
chat_call = Notification.on_update "n1" "Chat" none ("create" ∷ "error" ∷ []) true

unchanged_call : Notification.submit watching unchanged ≡ call chat_call
unfolding Notification.submit trim
unchanged_call = refl

chat_named : is_empty_text (trim "Chat") ≡ false
unfolding trim
chat_named = refl
