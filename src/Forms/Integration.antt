-- ===== src/Forms/Integration.antt =====
-- apps/web/components/integrations/integration-drawer.tsx: the drawer that adds and edits an
-- integration: its state, its effect and its handlers.
pub mod Laws
use Prim.Native.String.{[], ◌∷◌}
use release_ops.Common.{
  code, eqb, String, ◌==◌, Bool, true, false, not, ◌&&◌, Option, none, some, if◌then◌else◌,
}
use release_ops.Common.Text.{trim, is_empty_text}
use release_ops.Integrations.Kinds.{
  kind_requires_base_url, kind_token_optional, kind_is_jira, source_kinds, has,
}
use release_ops.Integrations.Secret.{build_integration_secret}
use release_ops.Forms.Base.{
  Mode, create, edit, is_create, Integration, Saved, Attempt, invalid, call, no_call, conclude,
  or_empty,
}

-- `s.replace(/\/+$/, "")`
unfoldable pub strip_slashes : String → String
strip_slashes [] = []
strip_slashes (c ∷ s) =
    let rest = strip_slashes s in if eqb (code c) b'/' && is_empty_text rest then [] else c ∷ rest

unfoldable pub normalize_base_url : String → String
unfolding trim strip_slashes
normalize_base_url value = strip_slashes (trim value)

pub record Props : Type 0 where
  pub mode : Mode
  pub integration : Option Integration
  pub is_open : Bool

pub record State : Type 0 where
  pub kind : String
  pub name : String
  pub base_url : String
  pub email : String
  pub secret : String
  pub is_default : Bool
  pub form_error : Option String

abbrev pub kind_in : Mode → Option Integration → String → String
kind_in edit (some i) kind = i.kind
kind_in edit none kind = kind
kind_in create i kind = kind

abbrev pub active_kind : Props → State → String
active_kind p s = kind_in p.mode p.integration s.kind

-- `integration?.hasSecret`
abbrev pub stored_secret : Option Integration → Bool
stored_secret none = false
stored_secret (some i) = i.has_secret

-- `integration?.baseUrl ?? ""`
abbrev pub stored_base_url : Option Integration → String
stored_base_url none = ""
stored_base_url (some i) = or_empty i.base_url

unfoldable pub secret_required : Props → State → Bool
unfolding kind_token_optional
secret_required p s =
    not (kind_token_optional (active_kind p s))
    && (if is_create p.mode then true else not (stored_secret p.integration))

abbrev pub load_integration : Integration → State → State
load_integration i s = record s {
  kind = i.kind;
  name = i.name;
  base_url = or_empty i.base_url;
  email = "";
  secret = "";
  is_default = i.is_default;
  form_error = none;
}

abbrev pub load_new : State → State
load_new s = record s {
  kind = "github";
  name = "";
  base_url = "";
  email = "";
  secret = "";
  is_default = false;
  form_error = none;
}

abbrev pub load_form : Mode → Option Integration → State → State
load_form edit (some i) s = load_integration i s
load_form edit none s = load_new s
load_form create i s = load_new s

-- The effect on `open`, `mode` and `integration`.
unfoldable pub reset_effect : Props → State → State
reset_effect p s = if not p.is_open then s else load_form p.mode p.integration s

pub record IntegrationInput : Type 0 where
  pub name : String
  pub base_url : Option String
  pub is_default : Option Bool

pub data Call : Type 0 where
  on_create : (kind : String) → IntegrationInput → (secret : String) → Call
  on_update : (id : String) → IntegrationInput → (secret : Option String) → Call

-- A base URL is sent for the kinds that require one, and a default for the kinds of sources.
abbrev pub payload : String → State → IntegrationInput
payload kind s = record {
  name = trim s.name;
  base_url = if kind_requires_base_url kind then some (trim s.base_url) else none;
  is_default = if has source_kinds kind then some s.is_default else none;
}

abbrev pub new_secret : String → State → String
new_secret kind s =
    if is_empty_text (trim s.secret)
    then ""
    else build_integration_secret kind (trim s.secret) (trim s.email)

abbrev pub changed_secret : String → State → Option String
changed_secret kind s =
    if is_empty_text (trim s.secret)
    then none
    else some (build_integration_secret kind (trim s.secret) (trim s.email))

abbrev pub integration_call : Mode → Option Integration → String → State → Attempt Call
integration_call create i kind s = call (on_create kind (payload kind s) (new_secret kind s))
integration_call edit (some i) kind s =
    call (on_update i.id (payload kind s) (changed_secret kind s))
integration_call edit none kind s = no_call

-- The tests of `handleSubmit`, in its order.
unfoldable pub first_error : Props → State → Option String
unfolding kind_requires_base_url kind_is_jira secret_required normalize_base_url
first_error p s =
    let kind = active_kind p s in
    let requires_base_url = kind_requires_base_url kind in
    let base_url = trim s.base_url in
    let lacks_secret = is_empty_text (trim s.secret) in
    let lacks_email = is_empty_text (trim s.email) in
    if is_empty_text (trim s.name)
    then some "validation.nameRequired"
    else if requires_base_url && is_empty_text base_url
    then some "validation.baseUrlRequired"
    else if kind_is_jira kind && (is_create p.mode && lacks_email)
    then some "validation.emailRequired"
    else if kind_is_jira kind && (not (is_create p.mode) && (not lacks_secret && lacks_email))
    then some "validation.emailRequiredForNewToken"
    else if secret_required p s && lacks_secret
    then some "validation.secretRequired"
    else if not (is_create p.mode)
        && (requires_base_url
            && (lacks_secret
                && not (
                    normalize_base_url base_url
                    == normalize_base_url (stored_base_url p.integration))))
    then some "validation.secretRequiredForBaseUrlChange"
    else none

abbrev pub attempt : Option String → Props → State → Attempt Call
attempt (some message) p s = invalid message
attempt none p s = integration_call p.mode p.integration (active_kind p s) s

-- The part of `handleSubmit` before the call.
unfoldable pub submit : Props → State → Attempt Call
unfolding first_error build_integration_secret
submit p s = attempt (first_error p s) p s

-- The whole handler, given how the call ends: the new state, and whether the drawer closes.
unfoldable pub handle_submit : Props → Saved → State → State × Bool
unfolding submit
handle_submit p result s =
    let (error, closed) = conclude (submit p s) result in (record s { form_error = error }, closed)
