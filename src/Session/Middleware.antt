-- ===== src/Session/Middleware.antt =====
-- apps/web/middleware.ts. `fetch` is a function from the address and the headers to a response, and
-- the environment variable GO_API_URL an argument. The matcher of `config`, which Next.js reads to
-- choose the requests that come here, is not modelled.
use Prim.Native.String
use release_ops.Common.{
  String, ◌==◌, Bool, true, false, not, ◌&&◌, ◌||◌, List, [], ◌∷◌, any, Option, none, some,
  if◌then◌else◌, ◌or_else◌,
}
use release_ops.Common.Text.{starts_with, strip_slash}
use release_ops.Common.Json.{Value, null, bool, num, str, obj, lookup, insert, fields}

abbrev pub default_go_api_url : String
default_go_api_url = "http://127.0.0.1:8080"

abbrev pub go_session_path : String
go_session_path = "/api/v1/auth/session"

abbrev pub login_path : String
login_path = "/login"

abbrev pub public_auth_paths : List String
public_auth_paths =
    "/login" ∷ "/accept-invitation" ∷ "/forgot-password" ∷ "/reset-password"
    ∷ "/confirm-email-change" ∷ []

unfoldable pub get_session_check_url : Option String → String
unfolding strip_slash
get_session_check_url go_api_url =
    String.◌++◌ (strip_slash (go_api_url or_else default_go_api_url)) go_session_path

-- `pathname === path || pathname.startsWith(path + "/")`
abbrev pub is_under : String → String → Bool
is_under path pathname = pathname == path || starts_with pathname (String.◌++◌ path "/")

unfoldable pub is_public_auth_path : String → Bool
is_public_auth_path pathname = any (λ path. is_under path pathname) public_auth_paths

unfoldable pub is_login_path : String → Bool
is_login_path pathname = is_under login_path pathname

-- A response as `getSessionUser` reads it: `ok`, and the body if it parses as JSON.
pub record SessionAnswer : Type 0 where
  pub ok : Bool
  pub json : Option Value

-- `none` is a call that throws.
abbrev pub SessionFetch : Type 0
SessionFetch = String → List (String × String) → Option SessionAnswer

-- `v ?? null`
abbrev pub non_null : Option Value → Option Value
non_null (some null) = none
non_null v = v

-- `data.user`; reading a property of `null` throws, and the caller answers `null` then too.
abbrev pub user_of : Value → Option Value
user_of (obj fs) = non_null (lookup "user" (fields fs))
user_of _ = none

unfoldable pub get_session_user : Option String → SessionFetch → Option String → Option Value
unfolding get_session_check_url
get_session_user go_api_url fetch cookie =
    elim (fetch (get_session_check_url go_api_url)
      (("cookie", cookie or_else "") ∷ ("accept", "application/json") ∷ [])) [
        | none ↦ none
        | some answer ↦
            if answer.ok
            then elim answer.json [ none ↦ none | some data' ↦ user_of data' ]
            else none
      ]

-- `request.nextUrl`: the address and its parsed query.
pub record NextUrl : Type 0 where
  pub origin : String
  pub pathname : String
  pub search_params : List (String × String)

pub record Request : Type 0 where
  pub next_url : NextUrl
  pub cookie : Option String

pub data Outcome : Type 0 where
  redirect : NextUrl → Outcome
  next : Outcome

-- Whether a value counts as true in a condition.
abbrev pub truthy : Value → Bool
truthy null = false
truthy (bool b) = b
truthy (num d) = not (d == "0" || d == "NaN")
truthy (str s) = not (s == "")
truthy _ = true

abbrev pub signed_in : Option Value → Bool
signed_in none = false
signed_in (some user) = truthy user

abbrev pub login_url : NextUrl → NextUrl
login_url url = record url {
  pathname = login_path;
  search_params = if not (url.pathname == "/") then insert "redirect" url.pathname [] else [];
}

abbrev pub home_url : NextUrl → NextUrl
home_url url = record url { pathname = "/"; search_params = [] }

unfoldable pub middleware : Option String → SessionFetch → Request → Outcome
middleware go_api_url fetch request =
    let pathname = request.next_url.pathname in
    let user = get_session_user go_api_url fetch request.cookie in
    if not (signed_in user) && not (is_public_auth_path pathname)
    then redirect (login_url request.next_url)
    else if signed_in user && is_login_path pathname
    then redirect (home_url request.next_url)
    else next
