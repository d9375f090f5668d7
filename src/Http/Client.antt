-- ===== src/Http/Client.antt =====
-- apps/web/lib/api/client.ts. `fetch` and `JSON.stringify` are functions that the client is given; a
-- call that throws says whether it threw the browser's `AbortError`.
pub mod Laws
use Prim.Native.String
use release_ops.Common.{
  ℕ, String, ◌==◌, Bool, true, false, not, List, [], ◌∷◌, ◌++◌, Option, none, some, if◌then◌else◌,
  eqb, ◌or_else◌,
}
use release_ops.Common.Text.{starts_with}
use release_ops.Common.Json.{Value, null, str, obj, to_text, lookup, fields}

abbrev pub base : String
base = "/api/go/api/v1"

pub data ClientError : Type 0 where
  api_error : (code : Value) (message : String) (status : ℕ) → ClientError
  abort_error : ClientError
  network_error : ClientError

-- `await response.json()`
pub data JsonRead : Type 0 where
  parsed : Value → JsonRead
  malformed : JsonRead
  json_aborted : JsonRead

pub record ApiResponse : Type 0 where
  pub ok : Bool
  pub status : ℕ
  pub status_text : String
  pub json : JsonRead

pub data FetchResult : Type 0 where
  answered : ApiResponse → FetchResult
  aborted : FetchResult
  failed : FetchResult

pub record RequestInit : Type 0 where
  pub url : String
  pub method : String
  pub headers : List (String × String)
  pub body : Option String

abbrev pub Fetch : Type 0
Fetch = RequestInit → FetchResult

-- What the caller gets: a value (`none` is undefined) or an exception.
pub data Outcome : Type 0 where
  returned : Option Value → Outcome
  threw : ClientError → Outcome

-- `v.k`, for a `v` that is not null or undefined.
abbrev pub property : String → Value → Option Value
property k (obj fs) = lookup k (fields fs)
property k v = none

-- `v?.k` and `?? d`, where null counts as missing.
abbrev pub chained : String → Option Value → Option Value
chained k none = none
chained k (some null) = none
chained k (some v) = property k v

abbrev pub nullish : Option Value → Value → Value
nullish none d = d
nullish (some null) d = d
nullish (some v) d = v

unfoldable pub parse_api_error : ApiResponse → ClientError
parse_api_error response = elim response.json [
  | malformed ↦ api_error (str "UNKNOWN_ERROR") response.status_text response.status
  | json_aborted ↦ api_error (str "UNKNOWN_ERROR") response.status_text response.status
  | parsed data' ↦
      let error = chained "error" (some data') in
      api_error (nullish (chained "code" error) (str "UNKNOWN_ERROR"))
        (to_text (nullish (chained "message" error) (str response.status_text))) response.status
]

unfoldable pub build_url : String → String
build_url path = String.◌++◌ base (if starts_with path "/" then path else String.◌++◌ "/" path)

-- The part of `request` after the response has come.
unfoldable pub read_response : ApiResponse → Outcome
unfolding parse_api_error
read_response response =
    if not response.ok
    then threw (parse_api_error response)
    else if eqb response.status 204
    then returned none
    else elim response.json [
      | parsed v ↦ returned (some v)
      | malformed ↦ threw network_error
      | json_aborted ↦ threw abort_error
    ]

module _ (stringify : Value → String) (fetch : Fetch) where
  abbrev pub request_init : String → String → Option Value → RequestInit
  request_init method path none = record {
    url = build_url path;
    method = method;
    headers = ("Accept", "application/json") ∷ [];
    body = none;
  }
  request_init method path (some body) = record {
    url = build_url path;
    method = method;
    headers = ("Accept", "application/json") ∷ ("Content-Type", "application/json") ∷ [];
    body = some (stringify body);
  }

  unfoldable pub request : String → String → Option Value → Outcome
  unfolding read_response
  request method path body = elim (fetch (request_init method path body)) [
    | answered response ↦ read_response response
    | aborted ↦ threw abort_error
    | failed ↦ threw network_error
  ]

  -- `apiClient`
  unfoldable pub get : String → Outcome
  get path = request "GET" path none

  unfoldable pub post : String → Option Value → Outcome
  post path body = request "POST" path body

  unfoldable pub patch : String → Option Value → Outcome
  patch path body = request "PATCH" path body

  unfoldable pub delete : String → Outcome
  delete path = request "DELETE" path none
