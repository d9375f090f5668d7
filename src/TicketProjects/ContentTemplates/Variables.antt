-- ===== src/TicketProjects/ContentTemplates/Variables.antt =====
-- The variables that the default templates use, read off their text, are those that the form lists.
use mathlib.Core.List.{tail}
use release_ops.Common.{
  String, ◌==◌, ◌≡◌, refl, Bool, true, false, not, ◌&&◌, List, [], ◌∷◌, map, keep, any, all, Option,
  if◌then◌else◌,
}
use release_ops.Common.Text.{split, trim, is_empty_text}
use release_ops.TicketProjects.ContentTemplates.{
  TemplateField, title, description, supersede_comment, field_text, is_jira,
  integration_default_templates, TemplateVariable, template_variables, template_variable_syntax,
  default_title, default_description_markdown, default_description_plain, default_supersede_comment,
}

abbrev last_or : String → List String → String
last_or d [] = d
last_or d (x ∷ xs) = last_or x xs

abbrev first_or : String → List String → String
first_or d [] = d
first_or d (x ∷ xs) = x

-- The last word before the closing brace: `.Release.Tag` in ` yesNo .Release.Tag }}`.
action_path : String → String
action_path part = last_or "" (split b' ' (trim (first_or "" (split b'}' part))))

-- The paths that a Go template names in its actions.
unfoldable pub placeholders : String → List String
unfolding action_path
placeholders s = keep (λ p. not (is_empty_text p)) (map action_path (tail (split b'{' s)))

abbrev same_field : TemplateField → TemplateField → Bool
same_field title title = true
same_field description description = true
same_field supersede_comment supersede_comment = true
same_field _ _ = false

-- The form lists the path as one that works in the field.
unfoldable pub is_listed : TemplateField → String → Bool
is_listed f p =
    any (λ (v : TemplateVariable). v.path == p && any (same_field f) v.works_in) template_variables

abbrev pub AllListed : TemplateField → String → Type 0
AllListed f s = all (is_listed f) (placeholders s) ≡ true

defaults_listed :
    (b : Bool) (f : TemplateField)
    → AllListed f (
        field_text
          (record {
            title = default_title;
            description = if b then default_description_plain else default_description_markdown;
            supersede_comment = default_supersede_comment;
          })
          f)
unfolding placeholders is_listed template_variables split trim
defaults_listed b title = refl
defaults_listed true description = refl
defaults_listed false description = refl
defaults_listed b supersede_comment = refl

-- The text that a user pastes for a listed variable is read as that variable and nothing else.
pub pasted_variables :
    map
      (λ (v : TemplateVariable). placeholders (template_variable_syntax v.path))
      template_variables
    ≡ map (λ (v : TemplateVariable). v.path ∷ []) template_variables
unfolding placeholders template_variables template_variable_syntax split trim
pasted_variables = refl

-- Every variable in a default template is one that the form lists for that field.
pub default_templates_listed :
    (kind : Option String) (f : TemplateField)
    → AllListed f (field_text (integration_default_templates kind) f)
unfolding integration_default_templates
default_templates_listed kind f = defaults_listed (is_jira kind) f
