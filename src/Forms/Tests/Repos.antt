-- ===== src/Forms/Tests/Repos.antt =====
-- Examples for apps/web/components/repos/repo-dialog.tsx.
use release_ops.Common.{◌≡◌, refl, true, false, [], ◌∷◌, none, some}
use release_ops.Common.Text.{trim}
use release_ops.Integrations.Kinds.{source_kind_requires_integration}
use release_ops.Forms.Base.{create, edit, call}
use release_ops.Forms.Repo.{
  Props, State, initial, commit, settle, is_stray, RepoInput, on_update, submit,
}
use release_ops.Forms.Repo.Effects.{settle-listed}
use release_ops.Forms.Repo.Submit.{sent, IsComplete, submit-IsComplete, submit-open-edit}
use release_ops.Forms.Tests.{all_integrations, releases, web_repo}

abbrev adding : Props
adding = record {
  mode = create;
  repo = none;
  integrations = all_integrations;
  ticket_projects = releases ∷ [];
  is_open = true;
}

abbrev editing : Props
editing = record adding { mode = edit; repo = some web_repo }

settle-listed_example : is_stray all_integrations (settle adding true initial) ≡ false
settle-listed_example = settle-listed adding true initial

abbrev picked : State
picked = record initial {
  source_kind = "gitlab";
  source_integration_id = "i1";
  integration_chosen = true;
}

abbrev web_input : RepoInput
web_input = record {
  source_kind = "gitlab";
  project_path = "acme/web";
  enabled = true;
  include_prereleases = false;
  source_integration_id = some "i1";
  ticket_project_id = "p1";
  notification_target_ids = [];
}

submit-open-edit_example :
    submit editing (settle editing true initial) ≡ call (on_update "r1" web_input)
unfolding trim source_kind_requires_integration
submit-open-edit_example =
    submit-open-edit editing initial web_repo refl refl refl refl refl refl refl refl refl

web_sent : sent (submit editing (settle editing true initial)) ≡ some web_input
unfolding submit settle commit trim source_kind_requires_integration
web_sent = refl

submit-IsComplete_example : IsComplete all_integrations web_input
submit-IsComplete_example = submit-IsComplete editing true initial web_input web_sent
