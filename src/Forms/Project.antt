-- ===== src/Forms/Project.antt =====
-- apps/web/components/ticket-projects/project-drawer.tsx: the state of the drawer that adds and edits
-- a ticket project, its effects and its handlers. As in the repository dialog, the effects of a
-- render see the state of that render (`seen`) and queue their updates in order.
pub mod Effects
pub mod Opening
pub mod Submit
use release_ops.Common.{
  String, ◌==◌, Bool, true, false, not, ◌&&◌, ◌||◌, List, [], ◌∷◌, any, find, keep, head?, is_empty,
  Option, none, some, if◌then◌else◌,
}
use release_ops.Common.Text.{trim, is_empty_text}
use release_ops.Common.Json.{Object, lookup, Value}
use release_ops.Integrations.Kinds.{kind_is_ticket, has}
use release_ops.TicketProjects.CreateConfig.{
  default_create_config, create_config_from_record, serialize_create_config, text_or_empty,
}
use release_ops.TicketProjects.ContentTemplates.{
  ContentTemplates, default_content_templates, content_templates_from_record,
}
use release_ops.TicketProjects.StatusMapping.{
  StatusMappingValues, default_status_mapping, status_mapping_from_record, status_mapping_to_record,
}
use release_ops.Forms.Base.{
  Mode, create, edit, is_create, Integration, TicketProject, Saved, Attempt, invalid, call, no_call,
  conclude, or_null,
}

pub data DrawerTab : Type 0 where
  general create_config_tab status_mapping_tab content_templates_tab : DrawerTab

pub record Props : Type 0 where
  pub mode : Mode
  pub project : Option TicketProject
  pub integrations : List Integration
  pub is_open : Bool

pub record State : Type 0 where
  pub integration_id : String
  pub workspace_id : String
  pub external_project_id : String
  pub name : String
  pub policy : String
  pub create_config : Object
  pub status_mapping : StatusMappingValues
  pub content_templates : ContentTemplates
  pub active_tab : DrawerTab
  pub invalid_tabs : List DrawerTab
  pub form_error : Option String

unfoldable pub ticket_integrations : List Integration → List Integration
ticket_integrations = keep (λ (i : Integration). kind_is_ticket i.kind)

abbrev pub find_id : String → List Integration → Option Integration
find_id id = find (λ (i : Integration). i.id == id)

abbrev pub selected_in :
    Mode → Option TicketProject → List Integration → String → Option Integration
selected_in edit (some project) integrations id = find_id project.integration_id integrations
selected_in edit none integrations id = none
selected_in create project integrations id = find_id id (ticket_integrations integrations)

unfoldable pub selected_integration : Props → State → Option Integration
selected_integration p s = selected_in p.mode p.project p.integrations s.integration_id

-- `integration?.kind`
abbrev pub kind_of : Option Integration → Option String
kind_of none = none
kind_of (some i) = some i.kind

abbrev pub active_kind : Props → State → Option String
active_kind p s = kind_of (selected_integration p s)

-- A kind that is missing or empty counts as false.
abbrev pub lacks_kind : Option String → Bool
lacks_kind none = true
lacks_kind (some kind) = is_empty_text kind

-- `kind === "kaneo"`, for a kind that may be missing.
abbrev pub is_kaneo : Option String → Bool
is_kaneo none = false
is_kaneo (some kind) = kind == "kaneo"

-- `kind ? defaultCreateConfig(kind) : {}`
abbrev pub default_for : Option String → Object
default_for none = []
default_for (some kind) = if is_empty_text kind then [] else default_create_config kind

-- `kind ? createConfigFromRecord(kind, r) : r`
abbrev pub loaded_for : Option String → Object → Object
loaded_for none r = r
loaded_for (some kind) r = if is_empty_text kind then r else create_config_from_record kind r

abbrev pub on_open_ticket_policies : List String
on_open_ticket_policies = "supersede" ∷ "merge" ∷ "skip_if_open" ∷ []

abbrev pub known_policy : String → String
known_policy policy = if has on_open_ticket_policies policy then policy else "supersede"

abbrev pub first_id : List Integration → String
first_id [] = ""
first_id (i ∷ is) = i.id

abbrev pub begin_reset : State → State
begin_reset s = record s { form_error = none; invalid_tabs = []; active_tab = general }

abbrev pub load_project : List Integration → TicketProject → State → State
load_project integrations project s = record s {
  integration_id = project.integration_id;
  workspace_id = "";
  external_project_id = project.external_project_id;
  name = project.name;
  policy = known_policy project.on_open_ticket_policy;
  create_config =
      loaded_for (kind_of (find_id project.integration_id integrations)) project.create_config;
  status_mapping = status_mapping_from_record project.status_mapping;
  content_templates = content_templates_from_record (some project.content_templates);
}

abbrev pub load_new : List Integration → State → State
load_new integrations s =
    let choices = ticket_integrations integrations in
    record s {
      integration_id = first_id choices;
      workspace_id = "";
      external_project_id = "";
      name = "";
      policy = "supersede";
      create_config = default_for (kind_of (head? choices));
      status_mapping = default_status_mapping;
      content_templates = default_content_templates;
    }

abbrev pub load_form : Mode → Option TicketProject → List Integration → State → State
load_form edit (some project) integrations s = load_project integrations project s
load_form edit none integrations s = load_new integrations s
load_form create project integrations s = load_new integrations s

-- The effect on `open`, `mode`, `project` and the integrations.
unfoldable pub reset_effect : Props → State → State
reset_effect p s =
    if not p.is_open then s else load_form p.mode p.project p.integrations (begin_reset s)

-- The effect on `open`, `mode`, `activeKind` and `integrationId`.
unfoldable pub kind_effect : Props → State → State → State
kind_effect p seen s =
    if not p.is_open || (not (is_create p.mode) || lacks_kind (active_kind p seen))
    then s
    else record s {
      workspace_id = "";
      external_project_id = "";
      create_config = default_for (active_kind p seen);
      status_mapping = default_status_mapping;
    }

-- The effect on `open`, `mode`, `externalProjectId` and `activeKind`.
unfoldable pub project_effect : Props → State → State → State
project_effect p seen s =
    if not p.is_open || (not (is_create p.mode) || is_empty_text seen.external_project_id)
    then s
    else record s {
      create_config = default_for (active_kind p seen);
      status_mapping = default_status_mapping;
    }

abbrev pub same_bool : Bool → Bool → Bool
same_bool true b = b
same_bool false b = not b

abbrev pub same_kind : Option String → Option String → Bool
same_kind none none = true
same_kind (some a) (some b) = a == b
same_kind _ _ = false

-- The last render: its properties and state.
pub record Render : Type 0 where
  pub props : Props
  pub state : State

abbrev pub same_base : Render → Render → Bool
same_base r q =
    same_bool r.props.is_open q.props.is_open
    && (same_bool (is_create r.props.mode) (is_create q.props.mode)
        && same_kind (active_kind r.props r.state) (active_kind q.props q.state))

abbrev pub kind_changed : Render → Render → Bool
kind_changed r q = not (same_base r q && r.state.integration_id == q.state.integration_id)

abbrev pub project_changed : Render → Render → Bool
project_changed r q =
    not (same_base r q && r.state.external_project_id == q.state.external_project_id)

-- One round of effects after a render `q` that follows a render `r`; `changed` says whether a
-- property that the first effect depends on is new.
unfoldable pub commit : Bool → Render → Render → State
unfolding reset_effect kind_effect project_effect
commit changed r q =
    let p = q.props in
    let s = q.state in
    let reset = if changed then reset_effect p s else s in
    let kinds = if kind_changed r q then kind_effect p s reset else reset in
    if project_changed r q then project_effect p s kinds else kinds

abbrev pub with_state : Render → State → Render
with_state q s = record { props = q.props; state = s }

-- The effects after a render, and after the render that follows; then nothing changes
-- (`rounds_stable`).
unfoldable pub settle : Bool → Render → Render → State
settle changed r q = commit false q (with_state q (commit changed r q))

pub data Event : Type 0 where
  set_integration_id set_workspace_id set_external_project_id set_name set_policy : String → Event
  set_create_config : Object → Event
  set_status_mapping : StatusMappingValues → Event
  set_content_templates : ContentTemplates → Event
  handle_tab_change : DrawerTab → Event

-- The handlers of the drawer's fields and tabs.
unfoldable pub handle : Event → State → State
handle (set_integration_id v) s = record s { integration_id = v }
handle (set_workspace_id v) s = record s { workspace_id = v }
handle (set_external_project_id v) s = record s { external_project_id = v }
handle (set_name v) s = record s { name = v }
handle (set_policy v) s = record s { policy = v }
handle (set_create_config v) s = record s { create_config = v }
handle (set_status_mapping v) s = record s { status_mapping = v }
handle (set_content_templates v) s = record s { content_templates = v }
handle (handle_tab_change tab) s = record s { active_tab = tab }
