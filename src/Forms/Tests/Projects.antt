-- ===== src/Forms/Tests/Projects.antt =====
-- Examples for apps/web/components/ticket-projects/project-drawer.tsx.
use release_ops.Common.{String, eq_iff, ◌≡◌, ◌≢◌, refl, true, false, [], none, some}
use release_ops.Common.Text.{trim}
use release_ops.Common.Json.{lookup, insert, spread, to_text}
use release_ops.TicketProjects.CreateConfig.{
  default_create_config, create_config_from_record, serialize_create_config,
}
use release_ops.TicketProjects.StatusMapping.{status_mapping_from_record, status_mapping_to_record}
use release_ops.TicketProjects.ContentTemplates.{default_content_templates}
use release_ops.Integrations.Kinds.{kind_is_ticket}
use release_ops.Forms.Base.{create, edit, call}
use release_ops.Forms.Project.{
  Props, State, Render, general, active_kind, commit, settle, with_state, ticket_integrations,
  selected_integration,
}
use release_ops.Forms.Project.Effects.{rounds_stable}
use release_ops.Forms.Project.Submit.{
  validate_status_mapping, validate_create_config, first_error, ProjectInput, Call, on_update,
  payload, submit,
}
use release_ops.Forms.Project.Submit.Laws.{submit-open_edit}
use release_ops.Forms.Project.Submit.Sent.{IsValid, Sends, submit-call}
use release_ops.Forms.Tests.{all_integrations, releases, no_number, mapping}

abbrev shown : State
shown = record {
  integration_id = "i2";
  workspace_id = "";
  external_project_id = "REL";
  name = "Releases";
  policy = "supersede";
  create_config = [];
  status_mapping = mapping;
  content_templates = default_content_templates;
  active_tab = general;
  invalid_tabs = [];
  form_error = none;
}

abbrev closed : Props
closed = record { mode = create; project = none; integrations = all_integrations; is_open = false }

abbrev adding : Props
adding = record closed { is_open = true }

abbrev editing : Props
editing = record adding { mode = edit; project = some releases }

abbrev before : Render
before = record { props = closed; state = shown }

abbrev opened : Render
opened = record { props = editing; state = shown }

rounds_stable_example :
    commit false
      (with_state opened (commit true before opened))
      (with_state opened (settle true before opened))
    ≡ settle true before opened
rounds_stable_example = rounds_stable true before opened

linear_kind : active_kind adding (record shown { integration_id = "i3" }) ≡ some "linear"
unfolding selected_integration ticket_integrations kind_is_ticket
linear_kind = refl

other_id : "i3" ≢ shown.integration_id
other_id e = let h : false ≡ true = (eq_iff "i3" "i2").1 e in cc

-- The form that opens for the stored project.
abbrev form : State
form = settle true before opened

abbrev form_call : Call
form_call = on_update "p1" (payload no_number edit "jira" form)

form_valid : first_error editing form ≡ none
unfolding first_error settle commit selected_integration trim validate_status_mapping
    validate_create_config status_mapping_from_record status_mapping_to_record lookup
    serialize_create_config create_config_from_record default_create_config spread insert to_text
form_valid = refl

form_kind : active_kind editing form ≡ some "jira"
unfolding selected_integration
form_kind = refl

form_sends : submit no_number editing form ≡ call form_call
unfolding submit
form_sends = rw form_valid (rw form_kind refl)

submit-call_example :
    (kind : String) × (active_kind editing form ≡ some kind)
    × IsValid editing form kind
    × Sends no_number editing form kind form_call
submit-call_example = submit-call no_number editing form form_call form_sends

submit-open_edit_example :
    (input : ProjectInput) × (submit no_number editing form ≡ call (on_update "p1" input))
    × (input.name ≡ trim "Releases")
    × (lookup "issueType" input.create_config ≡ lookup "issueType" releases.create_config)
    × (input.status_mapping ≡ releases.status_mapping)
    × (input.on_open_ticket_policy ≡ "merge")
submit-open_edit_example =
    submit-open_edit no_number before opened releases "jira" [] "" mapping "issueType" refl refl
      refl refl form_valid refl tt refl refl refl
