-- ===== src/Forms/Tests.antt =====
-- Examples for the forms, on a few integrations, projects and repositories.
mod Repos
mod Projects
mod Targets
use release_ops.Common.{String, Bool, true, false, List, [], ◌∷◌, Option, none, some}
use release_ops.Forms.Base.{Integration, TicketProject, Repo, NotificationTarget}
use release_ops.Common.Json.{str}
use release_ops.TicketProjects.CreateConfig.{serialize_create_config}
use release_ops.TicketProjects.StatusMapping.{StatusMappingValues, status_mapping_to_record}

abbrev gitlab : Integration
gitlab = record {
  id = "i1";
  kind = "gitlab";
  name = "GitLab";
  base_url = some "https://git.example/";
  is_default = true;
  has_secret = true;
}

abbrev jira : Integration
jira = record {
  id = "i2";
  kind = "jira";
  name = "Jira";
  base_url = some "https://jira.example";
  is_default = false;
  has_secret = true;
}

abbrev linear : Integration
linear = record {
  id = "i3";
  kind = "linear";
  name = "Linear";
  base_url = none;
  is_default = false;
  has_secret = true;
}

abbrev all_integrations : List Integration
all_integrations = gitlab ∷ jira ∷ linear ∷ []

abbrev mapping : StatusMappingValues
mapping = record {
  open_statuses = "To Do" ∷ [];
  done = "Done" ∷ [];
  cancelled = "Rejected" ∷ [];
  superseded = "Obsolete";
}

abbrev no_number : String → Option String
no_number s = none

abbrev releases : TicketProject
releases = record {
  id = "p1";
  integration_id = "i2";
  external_project_id = "REL";
  name = "Releases";
  create_config = serialize_create_config no_number "jira" [] "";
  status_mapping = status_mapping_to_record mapping;
  content_templates = [];
  on_open_ticket_policy = "merge";
}

abbrev web_repo : Repo
web_repo = record {
  id = "r1";
  source_kind = "gitlab";
  project_path = "acme/web";
  enabled = true;
  include_prereleases = false;
  source_integration_id = some "i1";
  ticket_project_id = "p1";
  notification_target_ids = [];
}

abbrev chat : NotificationTarget
chat = record {
  id = "n1";
  name = "Chat";
  events = "create" ∷ "error" ∷ [];
  has_secret = true;
  enabled = true;
}
