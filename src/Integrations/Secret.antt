-- ===== src/Integrations/Secret.antt =====
-- apps/web/lib/integrations/secret.ts: the text that is stored as an integration's secret. It is a
-- JSON object of one or two texts, quoted as `JSON.stringify` does; a text here has no lone surrogate.
pub mod Quote
use Prim.Native.String
use release_ops.Common.{String, ◌==◌, ◌||◌, List, [], ◌∷◌, if◌then◌else◌}
use release_ops.Integrations.Secret.Quote.{quote}

-- A member of the object, with the quotes.
abbrev pub member : String → String → String
member key value = String.◌++◌ (quote key) (String.◌++◌ ":" (quote value))

unfoldable pub build_integration_secret : (kind token email : String) → String
unfolding quote
build_integration_secret kind token email =
    if kind == "jira"
    then String.◌++◌ "{" (
        String.◌++◌ (member "email" email)
          (String.◌++◌ "," (String.◌++◌ (member "api_token" token) "}")))
    else if kind == "kaneo" || kind == "linear"
    then String.◌++◌ "{" (String.◌++◌ (member "api_key" token) "}")
    else String.◌++◌ "{" (String.◌++◌ (member "token" token) "}")
