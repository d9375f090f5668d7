-- ===== src/Http/Tests.antt =====
-- Examples for the proxy to the Go API and the client that calls it.
use release_ops.Common.{
  String, ◌==◌, ◌≡◌, ◌⊎◌, true, List, [], ◌∷◌, any, Option, none, some, if◌then◌else◌,
}
use release_ops.Common.Json.{Value, lookup}
use release_ops.Http.Proxy.{
  ProxyRequest, Upstream, Fetch, forward_request_headers, build_upstream_headers, proxy_request,
  upstream_error_response, FetchInit, passed, build_response_headers,
}
use release_ops.Http.Proxy.Laws.{
  IsBare, IsCall, nonempty, lookup-build_upstream_headers, proxy_request_total,
}
use release_ops.Http.Client
use release_ops.Http.Client.Laws.{Reads, request_cases}

abbrev one_header : String → Option String
one_header name = if name == "cookie" then some "s=1" else none

abbrev login_call : ProxyRequest
login_call = record { header = one_header; search = ""; array_buffer = some (0x7B ∷ 0x7D ∷ []) }

abbrev answer : Upstream
answer = record {
  status = 200;
  body = some (0x31 ∷ []);
  content_type = some "application/json";
  set_cookies = "a=1" ∷ "b=2" ∷ [];
  set_cookie = some "a=1, b=2";
}

abbrev answering : Fetch
answering init = some answer

lookup-build_upstream_headers_example : lookup "cookie" (build_upstream_headers login_call) ≡ (
    if any (λ n. n == "cookie") forward_request_headers
    then nonempty (one_header "cookie")
    else none)
lookup-build_upstream_headers_example = lookup-build_upstream_headers login_call "cookie"

proxy_request_total_example :
    let path : List String = "auth" ∷ "login" ∷ [] in
    let response = proxy_request none answering login_call path "POST" in
    ((response ≡ upstream_error_response)
      × (response.status ≡ 502)
      × (¬ IsBare "POST")
      × (login_call.array_buffer ≡ none))
    ⊎ ((init : FetchInit) × IsCall none login_call path "POST" init
        × (((response ≡ upstream_error_response)
              × (response.status ≡ 502)
              × (answering init ≡ none))
            ⊎ ((upstream : Upstream) × (answering init ≡ some upstream)
                × (response.status ≡ upstream.status)
                × (response.body ≡ passed upstream.body)
                × (response.headers ≡ build_response_headers upstream))))
proxy_request_total_example =
    proxy_request_total none answering login_call ("auth" ∷ "login" ∷ []) "POST"

abbrev no_stringify : Value → String
no_stringify v = "{}"

abbrev deleted : Client.ApiResponse
deleted = record { ok = true; status = 204; status_text = ""; json = Client.malformed }

abbrev deleting : Client.Fetch
deleting init = Client.answered deleted

request_cases_example :
    let outcome = Client.request no_stringify deleting "DELETE" "/repos/r1" none in
    let reply = deleting (Client.request_init no_stringify deleting "DELETE" "/repos/r1" none) in
    ((reply ≡ Client.aborted) × (outcome ≡ Client.threw Client.abort_error))
    ⊎ ((reply ≡ Client.failed) × (outcome ≡ Client.threw Client.network_error))
    ⊎ ((r : Client.ApiResponse) × (reply ≡ Client.answered r) × Reads r outcome)
request_cases_example = request_cases no_stringify deleting "DELETE" "/repos/r1" none
