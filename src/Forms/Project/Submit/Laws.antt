-- ===== src/Forms/Project/Submit/Laws.antt =====
-- What the drawer marks as invalid, shows and sends.
use release_ops.Common.{
  String, ◌≡◌, refl, sym, ◌∙◌, ap, true, false, [], is_empty, Option, none, some, arith, ◌↔◌,
}
use release_ops.Common.Text.{trim, is_empty_text}
use release_ops.Common.Json.{Object, lookup, IsKeyed}
use release_ops.TicketProjects.CreateConfig.{serialize_create_config, create_config_from_record}
use release_ops.TicketProjects.CreateConfig.Laws.{save_again}
use release_ops.TicketProjects.StatusMapping.{
  StatusMappingValues, status_mapping_to_record, status_mapping_from_record,
}
use release_ops.TicketProjects.StatusMapping.RoundTrip.{from-to_record}
use release_ops.Forms.Base.{edit, TicketProject, call}
use release_ops.Forms.Project.{
  Props, State, active_kind, Render, settle, known_policy, load_project, begin_reset, find_id,
  kind_of, selected_integration,
}
use release_ops.Forms.Project.Opening.{open-load_project}
use release_ops.Forms.Project.Submit.{
  validate_status_mapping, invalid_tabs, first_error, ProjectInput, on_update, payload, submit,
  attempt,
}

-- A form is free of invalid tabs exactly if there is no error to show.
pub first_error-none_iff :
    (p : Props) (s : State) → (first_error p s ≡ none) ↔ (invalid_tabs p s ≡ [])
unfolding first_error invalid_tabs
first_error-none_iff p s = ground arith

-- The mapping is accepted exactly if every list has a status and the superseded status is not blank.
pub validate_status_mapping-none_iff :
    (values : StatusMappingValues)
    → (validate_status_mapping values ≡ none) ↔ (
        (is_empty values.open_statuses ≡ false)
        × (is_empty values.done ≡ false)
        × (is_empty values.cancelled ≡ false)
        × (is_empty_text (trim values.superseded) ≡ false))
unfolding validate_status_mapping
validate_status_mapping-none_iff values = ground arith

module _ (parse : String → Option String) where
  submit-attempt : (p : Props) (s : State) → submit parse p s ≡ attempt parse (first_error p s) p s
  unfolding submit
  submit-attempt p s = refl

  module _ (p : Props) (s : State) (project : TicketProject) (kind : String) (m : p.mode ≡ edit)
      (e : p.project ≡ some project)
      (known : kind_of (find_id project.integration_id p.integrations) ≡ some kind) where
    loaded-kind : active_kind p (load_project p.integrations project s) ≡ some kind
    unfolding selected_integration
    loaded-kind = rw (m, e) known

    submit-loaded :
        first_error p (load_project p.integrations project s) ≡ none
        → submit parse p (load_project p.integrations project s)
          ≡ call (
              on_update project.id
                (payload parse edit kind (load_project p.integrations project s)))
    submit-loaded valid =
        submit-attempt p (load_project p.integrations project s)
        ∙ rw (valid, loaded-kind) (rw (m, e))

    loaded-config :
        is_empty_text kind ≡ false
        → (load_project p.integrations project s).create_config
          ≡ create_config_from_record kind project.create_config
    loaded-config nonempty = rw known (rw nonempty)

  -- Opening a stored project and saving it unchanged: the call stores the same value under every key
  -- of the configuration and the same mapping of statuses, if both were stored by this drawer, the
  -- integration and the policy are known and the form that opens is valid.
  pub submit-open_edit :
      (r q : Render) (project : TicketProject) (kind : String) (values : Object) (w : String)
      (mapping : StatusMappingValues) (k : String)
      → q.props.is_open ≡ true
      → q.props.mode ≡ edit
      → q.props.project ≡ some project
      → kind_of (find_id project.integration_id q.props.integrations) ≡ some kind
      → first_error q.props (settle true r q) ≡ none
      → is_empty_text kind ≡ false
      → IsKeyed values
      → project.create_config ≡ serialize_create_config parse kind values w
      → project.status_mapping ≡ status_mapping_to_record mapping
      → known_policy project.on_open_ticket_policy ≡ project.on_open_ticket_policy
      → (input : ProjectInput) × (submit parse q.props (settle true r q)
          ≡ call (on_update project.id input))
        × (input.name ≡ trim project.name)
        × (lookup k input.create_config ≡ lookup k project.create_config)
        × (input.status_mapping ≡ project.status_mapping)
        × (input.on_open_ticket_policy ≡ project.on_open_ticket_policy)
  submit-open_edit r q project kind values w mapping k open_ m e known valid nonempty keyed config
        stored policy =
      let form = load_project q.props.integrations project (begin_reset q.state) in
      let opened = open-load_project r q project open_ m e in
      (
        payload parse edit kind form,
        rw opened (
            submit-loaded q.props (begin_reset q.state) project kind m e known
              (ap (first_error q.props) (sym opened) ∙ valid)),
        refl,
        ap (λ c. lookup k (serialize_create_config parse kind c ""))
              (loaded-config q.props (begin_reset q.state) project kind m e known nonempty
                ∙ ap (create_config_from_record kind) config)
            ∙ save_again parse kind values w k keyed
            ∙ ap (lookup k) (sym config),
        ap status_mapping_to_record (ap status_mapping_from_record stored ∙ from-to_record mapping)
            ∙ sym stored,
        policy,
      )
