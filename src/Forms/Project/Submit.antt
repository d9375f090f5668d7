-- ===== src/Forms/Project/Submit.antt =====
-- apps/web/components/ticket-projects/project-drawer.tsx: validation and submission. `parse` is the
-- conversion of a text to a number in `serializeCreateConfig`.
pub mod Laws
pub mod Sent
use Prim.Native.String
use release_ops.Common.{
  String, ◌==◌, Bool, true, false, not, ◌&&◌, ◌||◌, List, [], ◌∷◌, ◌++◌, is_empty, Option, none,
  some, if◌then◌else◌,
}
use release_ops.Common.Text.{trim, is_empty_text}
use release_ops.Common.Json.{Object, lookup}
use release_ops.TicketProjects.CreateConfig.{serialize_create_config, text_or_empty}
use release_ops.TicketProjects.ContentTemplates.{ContentTemplates}
use release_ops.TicketProjects.StatusMapping.{StatusMappingValues, status_mapping_to_record}
use release_ops.Forms.Base.{
  Mode, create, edit, is_create, TicketProject, Saved, Attempt, invalid, call, no_call, conclude,
}
use release_ops.Forms.Project.{
  Props, State, DrawerTab, general, create_config_tab, status_mapping_tab, content_templates_tab,
  active_kind, lacks_kind, is_kaneo,
}

unfoldable pub validate_status_mapping : StatusMappingValues → Option String
validate_status_mapping values =
    if is_empty values.open_statuses
    then some "statusOpenRequired"
    else if is_empty values.done
    then some "statusDoneRequired"
    else if is_empty values.cancelled
    then some "statusCancelledRequired"
    else if is_empty_text (trim values.superseded)
    then some "statusSupersededRequired"
    else none

-- `String(values.k ?? "").trim() !== ""`
abbrev pub filled : String → Object → Bool
filled k values = not (is_empty_text (trim (text_or_empty (lookup k values))))

unfoldable pub validate_create_config : String → Object → Bool
validate_create_config kind values =
    if kind == "kaneo"
    then filled "status" values && filled "priority" values
    else if kind == "jira"
    then filled "issueType" values
    else if kind == "linear"
    then filled "stateId" values
    else true

-- `activeKind && !validateCreateConfig(activeKind, values)`
abbrev pub bad_config : Option String → Object → Bool
bad_config none values = false
bad_config (some kind) values = not (is_empty_text kind) && not (validate_create_config kind values)

abbrev pub same_tab : DrawerTab → DrawerTab → Bool
same_tab general general = true
same_tab create_config_tab create_config_tab = true
same_tab status_mapping_tab status_mapping_tab = true
same_tab content_templates_tab content_templates_tab = true
same_tab _ _ = false

abbrev pub has_tab : DrawerTab → List DrawerTab → Bool
has_tab t [] = false
has_tab t (u ∷ us) = same_tab u t || has_tab t us

-- `if (test) tabs.add(tab)`, for a set of tabs.
abbrev pub add_if : Bool → DrawerTab → List DrawerTab → List DrawerTab
add_if test tab tabs = if test && not (has_tab tab tabs) then tabs ++ tab ∷ [] else tabs

-- The tests of `validateAllTabs`, in its order.
abbrev pub lacks_name : State → Bool
lacks_name s = is_empty_text (trim s.name)

abbrev pub lacks_project : State → Bool
lacks_project s = is_empty_text (trim s.external_project_id)

abbrev pub lacks_integration : Props → State → Bool
lacks_integration p s = is_create p.mode && is_empty_text s.integration_id

abbrev pub lacks_workspace : Props → State → Bool
lacks_workspace p s =
    is_create p.mode && (is_kaneo (active_kind p s) && is_empty_text (trim s.workspace_id))

abbrev pub bad_mapping : State → Bool
bad_mapping s = elim (validate_status_mapping s.status_mapping) [ none ↦ false | some key ↦ true ]

-- `nextInvalidTabs`
unfoldable pub invalid_tabs : Props → State → List DrawerTab
invalid_tabs p s = add_if (bad_mapping s) status_mapping_tab (
    add_if (bad_config (active_kind p s) s.create_config) create_config_tab (
      add_if (lacks_kind (active_kind p s)) general (
        add_if (lacks_workspace p s) general (
          add_if (lacks_integration p s) general
            (add_if (lacks_project s) general (add_if (lacks_name s) general []))))))

-- A message, with the tab that it belongs to.
pub record TabError : Type 0 where
  pub tab : DrawerTab
  pub message : String

abbrev pub mapping_error : Option String → Option TabError
mapping_error none = none
mapping_error (some key) =
    some (record { tab = status_mapping_tab; message = String.◌++◌ "validation." key })

abbrev pub general_error : String → Option TabError
general_error message = some (record { tab = general; message = message })

-- What `validateAllTabs` returns, besides setting the invalid tabs.
unfoldable pub first_error : Props → State → Option TabError
first_error p s =
    if lacks_name s
    then general_error "validation.nameRequired"
    else if lacks_project s
    then general_error "validation.externalProjectIdRequired"
    else if lacks_integration p s
    then general_error "validation.integrationRequired"
    else if lacks_workspace p s
    then general_error "validation.workspaceRequired"
    else if lacks_kind (active_kind p s)
    then general_error "validation.integrationRequired"
    else if bad_config (active_kind p s) s.create_config
    then some (record { tab = create_config_tab; message = "validation.createConfigRequired" })
    else mapping_error (validate_status_mapping s.status_mapping)

pub record ProjectInput : Type 0 where
  pub name : String
  pub create_config : Object
  pub status_mapping : Object
  pub content_templates : ContentTemplates
  pub on_open_ticket_policy : String

pub data Call : Type 0 where
  on_create : (integration_id external_project_id : String) → ProjectInput → Call
  on_update : String → ProjectInput → Call

module _ (parse : String → Option String) where
  abbrev pub payload : Mode → String → State → ProjectInput
  payload mode kind s = record {
    name = trim s.name;
    create_config =
        serialize_create_config parse kind s.create_config
          (if is_create mode then s.workspace_id else "");
    status_mapping = status_mapping_to_record s.status_mapping;
    content_templates = s.content_templates;
    on_open_ticket_policy = s.policy;
  }

  abbrev pub project_call : Mode → Option TicketProject → State → ProjectInput → Attempt Call
  project_call create project s input =
      call (on_create s.integration_id (trim s.external_project_id) input)
  project_call edit (some project) s input = call (on_update project.id input)
  project_call edit none s input = no_call

  -- The call of a form that is valid. With no kind the handler would return; a valid form has one.
  abbrev pub valid_call : Props → Option String → State → Attempt Call
  valid_call p none s = no_call
  valid_call p (some kind) s = project_call p.mode p.project s (payload p.mode kind s)

  abbrev pub attempt : Option TabError → Props → State → Attempt Call
  attempt (some error) p s = invalid error.message
  attempt none p s = valid_call p (active_kind p s) s

  -- The part of `handleSubmit` before the call.
  unfoldable pub submit : Props → State → Attempt Call
  unfolding first_error validate_status_mapping validate_create_config
  submit p s = attempt (first_error p s) p s

  -- The tab that is shown: that of the first error, if there is one.
  abbrev pub shown_tab : Option TabError → DrawerTab → DrawerTab
  shown_tab none tab = tab
  shown_tab (some error) tab = error.tab

  -- The whole handler, given how the call ends: the new state, and whether the drawer closes.
  unfoldable pub handle_submit : Props → Saved → State → State × Bool
  unfolding submit invalid_tabs
  handle_submit p result s =
      let (error, closed) = conclude (submit p s) result in
      (
        record s {
          invalid_tabs = invalid_tabs p s;
          active_tab = shown_tab (first_error p s) s.active_tab;
          form_error = error;
        },
        closed,
      )
