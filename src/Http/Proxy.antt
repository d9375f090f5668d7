-- ===== src/Http/Proxy.antt =====
-- apps/web/app/api/go/[...path]/route.ts. `Headers` is a list of names, in lower case as the code
-- writes them, with values; `fetch` is a function, and `none` where a call throws.
pub mod Laws
use Prim.Native.String
use release_ops.Common.{
  ℕ, String, ◌==◌, Bool, true, false, not, ◌&&◌, List, [], ◌∷◌, ◌++◌, map, is_empty, Option, none,
  some, if◌then◌else◌, ◌or_else◌,
}
use release_ops.Common.Text.{strip_slash, join, is_empty_text}
use release_ops.Common.Json.{insert}

abbrev pub default_go_api_url : String
default_go_api_url = "http://127.0.0.1:8080"

abbrev pub forward_request_headers : List String
forward_request_headers =
    "accept" ∷ "content-type" ∷ "cookie" ∷ "authorization" ∷ "x-forwarded-for" ∷ []

unfoldable pub get_go_api_url : Option String → String
get_go_api_url env = env or_else default_go_api_url

unfoldable pub build_upstream_url : Option String → List String → String → String
unfolding get_go_api_url
build_upstream_url env path_segments search =
    let base = strip_slash (get_go_api_url env) in
    let url = String.◌++◌ base (String.◌++◌ "/" (join "/" path_segments)) in
    if is_empty_text search then url else String.◌++◌ url (String.◌++◌ "?" search)

-- The request, as the proxy reads it. Reading the body may fail.
pub record ProxyRequest : Type 0 where
  pub header : String → Option String
  pub search : String
  pub array_buffer : Option (List ℕ)

-- `if (value) headers.set(name, value)`
abbrev pub set_if_present : String → Option String → List (String × String) → List (String × String)
set_if_present name none headers = headers
set_if_present name (some value) headers =
    if is_empty_text value then headers else insert name value headers

-- The loop over the names that are passed on.
forward : (String → Option String) → List String → List (String × String) → List (String × String)
forward header [] headers = headers
forward header (name ∷ names) headers =
    forward header names (set_if_present name (header name) headers)

unfoldable pub build_upstream_headers : ProxyRequest → List (String × String)
unfolding forward
build_upstream_headers request = forward request.header forward_request_headers []

pub record Upstream : Type 0 where
  pub status : ℕ
  pub body : Option (List ℕ)
  pub content_type : Option String
  pub set_cookies : List String
  pub set_cookie : Option String

abbrev pub append_if_present :
    String → Option String → List (String × String) → List (String × String)
append_if_present name none headers = headers
append_if_present name (some value) headers =
    if is_empty_text value then headers else headers ++ (name, value) ∷ []

unfoldable pub build_response_headers : Upstream → List (String × String)
build_response_headers upstream =
    let headers = set_if_present "content-type" upstream.content_type [] in
    if not (is_empty upstream.set_cookies)
    then headers ++ map (λ cookie. ("set-cookie", cookie)) upstream.set_cookies
    else append_if_present "set-cookie" upstream.set_cookie headers

pub data ProxyBody : Type 0 where
  passed : Option (List ℕ) → ProxyBody
  error_json : String → String → ProxyBody

pub record ProxyResponse : Type 0 where
  pub status : ℕ
  pub headers : List (String × String)
  pub body : ProxyBody

abbrev pub upstream_error_response : ProxyResponse
upstream_error_response = record {
  status = 502;
  headers = ("content-type", "application/json") ∷ [];
  body = error_json "UPSTREAM_ERROR" "Failed to connect to Go API";
}

pub record FetchInit : Type 0 where
  pub url : String
  pub method : String
  pub headers : List (String × String)
  pub body : Option (List ℕ)
  pub duplex : Option String

abbrev pub Fetch : Type 0
Fetch = FetchInit → Option Upstream

abbrev pub has_body : String → Bool
has_body method = not (method == "GET") && not (method == "HEAD")

-- The body to send, inside `some`; `none` where reading it throws.
abbrev pub payload : String → Option (List ℕ) → Option (Option (List ℕ))
payload method read =
    if has_body method
    then elim read [ none ↦ none | some bytes ↦ some (if is_empty bytes then none else some bytes) ]
    else some none

abbrev pub fetch_init :
    Option String → ProxyRequest → List String → String → Option (List ℕ) → FetchInit
fetch_init env request path_segments method body = record {
  url = build_upstream_url env path_segments request.search;
  method = method;
  headers = build_upstream_headers request;
  body = body;
  duplex = elim body [ none ↦ none | some bytes ↦ some "half" ];
}

abbrev pub respond : Option Upstream → ProxyResponse
respond none = upstream_error_response
respond (some upstream) = record {
  status = upstream.status;
  headers = build_response_headers upstream;
  body = passed upstream.body;
}

unfoldable pub proxy_request :
    Option String → Fetch → ProxyRequest → List String → String → ProxyResponse
proxy_request env fetch request path_segments method = elim (payload method request.array_buffer) [
  | none ↦ upstream_error_response
  | some body ↦ respond (fetch (fetch_init env request path_segments method body))
]

-- The exported handlers.
abbrev pub Handler : Type 0
Handler = Option String → Fetch → ProxyRequest → List String → ProxyResponse

unfoldable pub get : Handler
get env fetch request path = proxy_request env fetch request path "GET"

unfoldable pub post : Handler
post env fetch request path = proxy_request env fetch request path "POST"

unfoldable pub patch : Handler
patch env fetch request path = proxy_request env fetch request path "PATCH"

unfoldable pub delete : Handler
delete env fetch request path = proxy_request env fetch request path "DELETE"
