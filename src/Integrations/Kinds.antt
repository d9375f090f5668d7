-- ===== src/Integrations/Kinds.antt =====
-- apps/web/lib/integrations/kinds.ts and apps/web/lib/repos/source-kinds.ts. A kind is a text, as
-- in the functions there, which any text may be given to.
use release_ops.Common.{String, ◌==◌, Bool, ◌||◌, List, [], ◌∷◌, any}

-- `xs.includes(x)`, and `has` of a set made from a list.
abbrev pub has : List String → String → Bool
has xs x = any (λ y. y == x) xs

abbrev pub integration_kinds : List String
integration_kinds =
    "github" ∷ "gitlab" ∷ "gitea" ∷ "forgejo" ∷ "codeberg" ∷ "kaneo" ∷ "jira" ∷ "linear" ∷ []

abbrev pub base_url_kinds : List String
base_url_kinds = "gitlab" ∷ "gitea" ∷ "forgejo" ∷ "kaneo" ∷ "jira" ∷ []

unfoldable pub kind_requires_base_url : String → Bool
kind_requires_base_url kind = has base_url_kinds kind

abbrev pub token_optional_kinds : List String
token_optional_kinds = "github" ∷ "gitea" ∷ "forgejo" ∷ "codeberg" ∷ []

unfoldable pub kind_token_optional : String → Bool
kind_token_optional kind = has token_optional_kinds kind

unfoldable pub kind_uses_api_key_label : String → Bool
kind_uses_api_key_label kind = kind == "kaneo" || kind == "linear"

unfoldable pub kind_is_jira : String → Bool
kind_is_jira kind = kind == "jira"

abbrev pub ticket_integration_kinds : List String
ticket_integration_kinds = "kaneo" ∷ "jira" ∷ "linear" ∷ []

unfoldable pub kind_is_ticket : String → Bool
kind_is_ticket kind = has ticket_integration_kinds kind

abbrev pub source_kinds : List String
source_kinds = "github" ∷ "gitlab" ∷ "gitea" ∷ "forgejo" ∷ "codeberg" ∷ []

abbrev pub source_kinds_requiring_integration : List String
source_kinds_requiring_integration = "gitlab" ∷ "gitea" ∷ "forgejo" ∷ []

unfoldable pub source_kind_requires_integration : String → Bool
source_kind_requires_integration kind = has source_kinds_requiring_integration kind
