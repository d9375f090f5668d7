-- ===== src/Forms/Repo.antt =====
-- apps/web/components/repos/repo-dialog.tsx: the state of the dialog that adds and edits a monitored
-- repository. An event sets state; then React runs the effects of the render, which see the state of
-- that render and queue their updates in order, and renders again until nothing changes.
pub mod Effects
pub mod Submit
use release_ops.Common.{
  ℕ, suc, String, ◌==◌, Bool, true, false, not, ◌&&◌, ◌||◌, List, [], ◌∷◌, map, any, find, keep,
  head?, Option, none, some, if◌then◌else◌,
}
use release_ops.Common.Text.{trim, is_empty_text}
use release_ops.Integrations.Kinds.{source_kind_requires_integration}
use release_ops.Forms.Base.{
  Mode, create, edit, is_create, Integration, TicketProject, Repo, Saved, Attempt, invalid, call,
  no_call, conclude, or_null, or_empty,
}

pub record Props : Type 0 where
  pub mode : Mode
  pub repo : Option Repo
  pub integrations : List Integration
  pub ticket_projects : List TicketProject
  pub is_open : Bool

pub record State : Type 0 where
  pub source_kind : String
  pub project_path : String
  pub ticket_project_id : String
  pub source_integration_id : String
  pub integration_chosen : Bool
  pub reset_count : ℕ
  pub notification_target_ids : List String
  pub enabled : Bool
  pub include_prereleases : Bool
  pub form_error : Option String

abbrev pub initial : State
initial = record {
  source_kind = "github";
  project_path = "";
  ticket_project_id = "";
  source_integration_id = "";
  integration_chosen = false;
  reset_count = 0;
  notification_target_ids = [];
  enabled = true;
  include_prereleases = false;
  form_error = none;
}

-- The values of `sourceIntegrationItems`.
abbrev pub source_integration_ids : List Integration → String → List String
source_integration_ids integrations kind =
    map (λ (i : Integration). i.id) (keep (λ (i : Integration). i.kind == kind) integrations)

abbrev pub id_or_empty : Option Integration → String
id_or_empty none = ""
id_or_empty (some i) = i.id

abbrev pub default_integration_id : List Integration → String → String
default_integration_id integrations kind =
    id_or_empty (find (λ (i : Integration). i.kind == kind && i.is_default) integrations)

abbrev pub first_project_id : List TicketProject → String
first_project_id [] = ""
first_project_id (p ∷ ps) = p.id

abbrev pub begin_reset : State → State
begin_reset s = record s {
  form_error = none;
  integration_chosen = false;
  reset_count = suc s.reset_count;
}

abbrev pub load_new : List TicketProject → State → State
load_new projects s = record s {
  source_kind = "github";
  project_path = "";
  ticket_project_id = first_project_id projects;
  source_integration_id = "";
  notification_target_ids = [];
  enabled = true;
  include_prereleases = false;
}

abbrev pub load_repo : Repo → State → State
load_repo repo s = record s {
  source_kind = repo.source_kind;
  project_path = repo.project_path;
  ticket_project_id = repo.ticket_project_id;
  source_integration_id = or_empty repo.source_integration_id;
  notification_target_ids = repo.notification_target_ids;
  enabled = repo.enabled;
  include_prereleases = repo.include_prereleases;
}

abbrev pub load_form : Mode → Option Repo → List TicketProject → State → State
load_form edit (some repo) projects s = load_repo repo s
load_form edit none projects s = load_new projects s
load_form create repo projects s = load_new projects s

-- The effect on `open`, `mode`, `repo` and `ticketProjects`.
unfoldable pub reset_effect : Props → State → State
reset_effect p s =
    if not p.is_open then s else load_form p.mode p.repo p.ticket_projects (begin_reset s)

-- The selected integration is none of the source kind.
abbrev pub is_stray : List Integration → State → Bool
is_stray integrations s =
    not (is_empty_text s.source_integration_id)
    && not (
        any (λ id. id == s.source_integration_id)
          (source_integration_ids integrations s.source_kind))

-- The other two effects see the state `seen` of the render. They run whether or not what they
-- depend on has changed, which makes no difference: run again on the same values they set nothing new.
unfoldable pub clear_effect : Props → State → State → State
clear_effect p seen s =
    if is_stray p.integrations seen then record s { source_integration_id = "" } else s

unfoldable pub default_effect : Props → State → State → State
default_effect p seen s =
    if not p.is_open || not (is_create p.mode) || seen.integration_chosen
    then s
    else record s { source_integration_id = default_integration_id p.integrations seen.source_kind }

-- One round of effects; the first one runs only where what it depends on has changed.
unfoldable pub commit : Props → Bool → State → State
unfolding reset_effect clear_effect default_effect
commit p changed s = default_effect p s (clear_effect p s (if changed then reset_effect p s else s))

-- A change of state is rendered twice; after that nothing changes (`settle_stable`).
unfoldable pub settle : Props → Bool → State → State
settle p changed s = commit p false (commit p changed s)

pub data Event : Type 0 where
  set_source_kind set_project_path set_ticket_project_id pick_integration : String → Event
  set_notification_targets : List String → Event
  set_enabled set_include_prereleases : Bool → Event

-- The handlers of the form's fields.
unfoldable pub handle : Event → State → State
handle (set_source_kind kind) s = record s { source_kind = kind; integration_chosen = false }
handle (set_project_path path) s = record s { project_path = path }
handle (set_ticket_project_id id) s = record s { ticket_project_id = id }
handle (pick_integration id) s = record s { source_integration_id = id; integration_chosen = true }
handle (set_notification_targets ids) s = record s { notification_target_ids = ids }
handle (set_enabled b) s = record s { enabled = b }
handle (set_include_prereleases b) s = record s { include_prereleases = b }

pub record RepoInput : Type 0 where
  pub source_kind : String
  pub project_path : String
  pub enabled : Bool
  pub include_prereleases : Bool
  pub source_integration_id : Option String
  pub ticket_project_id : String
  pub notification_target_ids : List String

pub data Call : Type 0 where
  on_create : RepoInput → Call
  on_update : String → RepoInput → Call

abbrev pub repo_payload : State → RepoInput
repo_payload s = record {
  source_kind = s.source_kind;
  project_path = trim s.project_path;
  enabled = s.enabled;
  include_prereleases = s.include_prereleases;
  source_integration_id = or_null s.source_integration_id;
  ticket_project_id = s.ticket_project_id;
  notification_target_ids = s.notification_target_ids;
}

abbrev pub repo_call : Mode → Option Repo → RepoInput → Attempt Call
repo_call create repo payload = call (on_create payload)
repo_call edit (some repo) payload = call (on_update repo.id payload)
repo_call edit none payload = no_call

-- The part of `handleSubmit` before the call.
unfoldable pub submit : Props → State → Attempt Call
submit p s =
    if is_empty_text (trim s.project_path)
    then invalid "validation.projectPathRequired"
    else if is_empty_text s.ticket_project_id
    then invalid "validation.ticketProjectRequired"
    else if source_kind_requires_integration s.source_kind && is_empty_text s.source_integration_id
    then invalid "validation.sourceIntegrationRequired"
    else repo_call p.mode p.repo (repo_payload s)

-- The whole handler, given how the call ends: the new state, and whether the dialog closes.
unfoldable pub handle_submit : Props → Saved → State → State × Bool
handle_submit p result s =
    let (error, closed) = conclude (submit p s) result in (record s { form_error = error }, closed)
