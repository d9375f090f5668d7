-- ===== src/TicketProjects/ContentTemplates.antt =====
-- apps/web/lib/ticket-projects/content-templates.ts
pub mod Variables
use Prim.Native.String
use release_ops.Common.{String, ◌==◌, Bool, List, [], ◌∷◌, Option, none, some, if◌then◌else◌}
use release_ops.Common.Json.{Object, lookup, string_or}

pub record ContentTemplates : Type 0 where
  pub title : String
  pub description : String
  pub supersede_comment : String

-- `keyof ContentTemplates`
pub data TemplateField : Type 0 where
  title description supersede_comment : TemplateField

abbrev pub field_text : ContentTemplates → TemplateField → String
field_text t title = t.title
field_text t description = t.description
field_text t supersede_comment = t.supersede_comment

abbrev pub default_title : String
default_title = "Release: {{ .Repo.SourceKind }} {{ .Repo.ProjectPath }} {{ .Release.Tag }}"

abbrev pub default_description_markdown : String
default_description_markdown =
    "**Source:** {{ .Repo.SourceKind }}\n**Repository:** {{ .Repo.ProjectPath }} ({{ .Repo.URL }})\n\n**Release:** {{ .Release.Tag }} — {{ .Release.Name }}\n**URL:** {{ .Release.URL }}\n**Published:** {{ .Release.PublishedAt }}\n**Pre-release:** {{ yesNo .Release.IsPrerelease }}\n\n**Previous tag:** {{ .Previous.Tag }}\n\n**Release notes:**\n{{ .Release.Notes }}"

abbrev pub default_description_plain : String
default_description_plain =
    "Source: {{ .Repo.SourceKind }}\nRepository: {{ .Repo.ProjectPath }} ({{ .Repo.URL }})\n\nRelease: {{ .Release.Tag }} — {{ .Release.Name }}\nURL: {{ .Release.URL }}\nPublished: {{ .Release.PublishedAt }}\nPre-release: {{ yesNo .Release.IsPrerelease }}\n\nPrevious tag: {{ .Previous.Tag }}\n\nRelease notes:\n{{ .Release.Notes }}"

abbrev pub default_supersede_comment : String
default_supersede_comment =
    "Superseded: {{ .Supersede.OldTag }} → {{ .Supersede.NewTag }}\n{{ .Release.URL }}\n\nNew ticket: {{ .Supersede.NewTicketURL }}"

-- `kind === "jira"`, for a kind that may be undefined.
abbrev pub is_jira : Option String → Bool
is_jira none = Bool.false
is_jira (some kind) = kind == "jira"

unfoldable pub integration_default_templates : Option String → ContentTemplates
integration_default_templates kind = record {
  title = default_title;
  description = if is_jira kind then default_description_plain else default_description_markdown;
  supersede_comment = default_supersede_comment;
}

pub record TemplateVariable : Type 0 where
  pub key : String
  pub path : String
  pub works_in : List TemplateField

abbrev pub all_fields : List TemplateField
all_fields = title ∷ description ∷ supersede_comment ∷ []

abbrev pub supersede_only : List TemplateField
supersede_only = supersede_comment ∷ []

abbrev variable : String → String → List TemplateField → TemplateVariable
variable key path works_in = record { key = key; path = path; works_in = works_in }

unfoldable pub template_variables : List TemplateVariable
template_variables =
    variable "repoSourceKind" ".Repo.SourceKind" all_fields
    ∷ variable "repoProjectPath" ".Repo.ProjectPath" all_fields
    ∷ variable "repoUrl" ".Repo.URL" all_fields
    ∷ variable "releaseTag" ".Release.Tag" all_fields
    ∷ variable "releaseName" ".Release.Name" all_fields
    ∷ variable "releaseUrl" ".Release.URL" all_fields
    ∷ variable "releaseNotes" ".Release.Notes" all_fields
    ∷ variable "releasePublishedAt" ".Release.PublishedAt" all_fields
    ∷ variable "releaseIsPrerelease" ".Release.IsPrerelease" all_fields
    ∷ variable "previousTag" ".Previous.Tag" all_fields
    ∷ variable "supersedeOldTag" ".Supersede.OldTag" supersede_only
    ∷ variable "supersedeNewTag" ".Supersede.NewTag" supersede_only
    ∷ variable "supersedeNewTicketUrl" ".Supersede.NewTicketURL" supersede_only
    ∷ []

-- The text that a user pastes for a variable.
unfoldable pub template_variable_syntax : String → String
template_variable_syntax path = String.◌++◌ "{{ " (String.◌++◌ path " }}")

unfoldable pub default_content_templates : ContentTemplates
default_content_templates = record { title = ""; description = ""; supersede_comment = "" }

unfoldable pub content_templates_from_record : Option Object → ContentTemplates
unfolding default_content_templates
content_templates_from_record none = default_content_templates
content_templates_from_record (some r) = record {
  title = string_or "" (lookup "title" r);
  description = string_or "" (lookup "description" r);
  supersede_comment = string_or "" (lookup "supersedeComment" r);
}
