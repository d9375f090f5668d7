-- ===== src/Http/Proxy/Laws.antt =====
-- What the proxy passes on, and what it answers.
use release_ops.Common.{
  ℕ, String, ◌==◌, eq_iff, ◌≡◌, refl, ap, true, false, List, [], ◌∷◌, ◌++◌, map, is_empty, any,
  Option, none, some, if◌then◌else◌, arith, inl, inr, Bool-cases, ◌⊎◌,
}
use release_ops.Common.Text.{is_empty_text}
use release_ops.Common.Json.{lookup, insert, lookup-insert}
use release_ops.Http.Proxy.{
  ProxyRequest, forward, forward_request_headers, set_if_present, build_upstream_headers, Upstream,
  build_response_headers, ProxyResponse, Fetch, FetchInit, build_upstream_url, fetch_init, has_body,
  proxy_request, passed, upstream_error_response, payload, respond, append_if_present,
}

-- A header as JavaScript tests it: absent and empty count alike.
abbrev pub nonempty : Option String → Option String
nonempty none = none
nonempty (some value) = if is_empty_text value then none else some value

abbrev pub or_else_some : Option String → Option String → Option String
or_else_some (some a) o = some a
or_else_some none o = o

lookup-set_if_present :
    (name j : String) (o : Option String) (headers : List (String × String))
    → lookup j (set_if_present name o headers)
      ≡ (if name == j then or_else_some (nonempty o) (lookup j headers) else lookup j headers)
lookup-set_if_present name j none headers = ground arith
lookup-set_if_present name j (some v) headers = ground (arith, lookup-insert name j v headers)

forward-nonempty :
    (header : String → Option String) (j : String) (names : List String)
    (headers : List (String × String))
    → lookup j (forward header names headers) ≡ (
        if any (λ name. name == j) names
        then or_else_some (nonempty (header j)) (lookup j headers)
        else lookup j headers)
unfolding forward
forward-nonempty header j [] headers = refl
forward-nonempty header j (name ∷ names) headers = ground (
  arith,
  forward-nonempty header j names (set_if_present name (header name) headers),
  lookup-set_if_present name j (header name) headers,
  eq_iff name j,
)

-- The Go API receives exactly the listed headers that the request has with a value.
pub lookup-build_upstream_headers :
    (request : ProxyRequest) (name : String)
    → lookup name (build_upstream_headers request) ≡ (
        if any (λ n. n == name) forward_request_headers
        then nonempty (request.header name)
        else none)
unfolding build_upstream_headers lookup
lookup-build_upstream_headers request name =
    rw (forward-nonempty request.header name forward_request_headers []) (ground arith)

-- A request that comes without a body.
abbrev pub IsBare : String → Type 0
IsBare method = (method ≡ "GET") ⊎ (method ≡ "HEAD")

-- The body that is sent for what was read: none for GET and HEAD, and none where it is empty.
abbrev pub Carries : String → Option (List ℕ) → Option (List ℕ) → Type 0
Carries method read body =
    (IsBare method × (body ≡ none))
    ⊎ ((¬ IsBare method) × (read ≡ some []) × (body ≡ none))
    ⊎ ((¬ IsBare method)
        × ((first : ℕ) × (rest : List ℕ) × (read ≡ some (first ∷ rest))
            × (body ≡ some (first ∷ rest))))

has_body-IsBare : (method : String) → has_body method ≡ false → IsBare method
has_body-IsBare method h = elim (Bool-cases (method == "GET")) [
  | inl e ↦ inl ((eq_iff method "GET").0 e)
  | inr n ↦ inr ((eq_iff method "HEAD").0 (ground arith))
]

has_body-full : (method : String) → has_body method ≡ true → ¬ IsBare method
has_body-full method h (inl e) = ground (arith, (eq_iff method "GET").1 e)
has_body-full method h (inr e) = ground (arith, (eq_iff method "HEAD").1 e)

payload-cases :
    (method : String) (read : Option (List ℕ))
    → ((¬ IsBare method) × (read ≡ none) × (payload method read ≡ none))
      ⊎ ((body : Option (List ℕ)) × (payload method read ≡ some body) × Carries method read body)
payload-cases method read = elim (Bool-cases (has_body method)) [
  | inr bare ↦ inr (none, rw bare, inl (has_body-IsBare method bare, refl))
  | inl has ↦ read-cases (has_body-full method has) has read
]
  where
    read-cases :
        ¬ IsBare method
        → has_body method ≡ true
        → (r : Option (List ℕ))
        → ((¬ IsBare method) × (r ≡ none) × (payload method r ≡ none))
          ⊎ ((body : Option (List ℕ)) × (payload method r ≡ some body) × Carries method r body)
    read-cases full has none = inl (full, refl, rw has)
    read-cases full has (some []) = inr (none, rw has, inr (inl (full, refl, refl)))
    read-cases full has (some (b ∷ bs)) =
        inr (some (b ∷ bs), rw has, inr (inr (full, (b, bs, refl, refl))))

module _ (env : Option String) (fetch : Fetch) (request : ProxyRequest) (path : List String)
    (method : String) where
  proxy_request-unread :
      payload method request.array_buffer ≡ none
      → proxy_request env fetch request path method ≡ upstream_error_response
  unfolding proxy_request
  proxy_request-unread e = rw (e, proxy_request)

  proxy_request-sent :
      {body : Option (List ℕ)}
      → payload method request.array_buffer ≡ some body
      → proxy_request env fetch request path method
        ≡ respond (fetch (fetch_init env request path method body))
  unfolding proxy_request
  proxy_request-sent e = rw (e, proxy_request)

respond-cases :
    (answer : Option Upstream) (response : ProxyResponse)
    → response ≡ respond answer
    → ((response ≡ upstream_error_response) × (response.status ≡ 502) × (answer ≡ none))
      ⊎ ((upstream : Upstream) × (answer ≡ some upstream)
          × (response.status ≡ upstream.status)
          × (response.body ≡ passed upstream.body)
          × (response.headers ≡ build_response_headers upstream))
respond-cases none response e = inl (e, ap (λ r. r.status) e, refl)
respond-cases (some u) response e = inr (u, refl, rw e, rw e, rw e)

-- The call that the proxy makes: to the path and the query of the request, with its method, the headers
-- that are passed on, and this body.
pub record IsCall (env : Option String) (request : ProxyRequest) (path : List String)
    (method : String) (init : FetchInit) : Type 0 where
  pub url : init.url ≡ build_upstream_url env path request.search
  pub same_method : init.method ≡ method
  pub headers : init.headers ≡ build_upstream_headers request
  pub body : Carries method request.array_buffer init.body

-- The proxy answers 502 where there is a body that cannot be read or the call throws; otherwise it
-- passes on the status and the body of the response. The one call has the request's path, query and
-- method, and its body exactly: none for GET and HEAD, and none where the body is empty.
pub proxy_request_total :
    (env : Option String) (fetch : Fetch) (request : ProxyRequest) (path : List String)
    (method : String)
    → let response = proxy_request env fetch request path method in
      ((response ≡ upstream_error_response)
        × (response.status ≡ 502)
        × (¬ IsBare method)
        × (request.array_buffer ≡ none))
      ⊎ ((init : FetchInit) × IsCall env request path method init
          × (((response ≡ upstream_error_response) × (response.status ≡ 502) × (fetch init ≡ none))
              ⊎ ((upstream : Upstream) × (fetch init ≡ some upstream)
                  × (response.status ≡ upstream.status)
                  × (response.body ≡ passed upstream.body)
                  × (response.headers ≡ build_response_headers upstream))))
proxy_request_total env fetch request path method =
    elim (payload-cases method request.array_buffer) [
      | inl (has, gone, e) ↦
          let failed = proxy_request-unread env fetch request path method e in
          inl (failed, ap (λ r. r.status) failed, has, gone)
      | inr (body, e, carried) ↦ inr (
        fetch_init env request path method body,
        record { url = refl; same_method = refl; headers = refl; body = carried },
        respond-cases _ _ (proxy_request-sent env fetch request path method e),
      )
    ]

-- The values of a header, in order.
abbrev pub values : String → List (String × String) → List String
values name [] = []
values name ((n, v) ∷ headers) =
    let rest = values name headers in if n == name then v ∷ rest else rest

values-cookies :
    (headers : List (String × String)) (cookies : List String)
    → values "set-cookie" headers ≡ []
    → values "set-cookie" (headers ++ map (λ cookie. ("set-cookie", cookie)) cookies) ≡ cookies
values-cookies [] [] h = refl
values-cookies [] (c ∷ cookies) h = rw (values-cookies [] cookies refl)
values-cookies ((n, v) ∷ headers) cookies h = ground (arith, values-cookies headers cookies)

values-content_type :
    (o : Option String) → values "set-cookie" (set_if_present "content-type" o []) ≡ []
unfolding insert
values-content_type none = refl
values-content_type (some v) = ground arith

values-append_if_present :
    (headers : List (String × String)) (o : Option String)
    → values "set-cookie" headers ≡ []
    → values "set-cookie" (append_if_present "set-cookie" o headers)
      ≡ values "set-cookie" (append_if_present "set-cookie" o [])
values-append_if_present headers none h = h
values-append_if_present headers (some v) h = elim (Bool-cases (is_empty_text v)) [
  | inl empty ↦ rw empty h
  | inr full ↦ rw full (values-cookies headers (v ∷ []) h)
]

-- Every cookie that the Go API sets reaches the browser, each once and in order.
pub values-build_response_headers :
    (upstream : Upstream)
    → values "set-cookie" (build_response_headers upstream) ≡ (
        if is_empty upstream.set_cookies
        then values "set-cookie" (append_if_present "set-cookie" upstream.set_cookie [])
        else upstream.set_cookies)
unfolding build_response_headers
values-build_response_headers upstream =
    let plain = values-content_type upstream.content_type in
    elim (Bool-cases (is_empty upstream.set_cookies)) [
      | inr several ↦ rw several (
          values-cookies (set_if_present "content-type" upstream.content_type [])
            upstream.set_cookies plain)
      | inl bare ↦ rw bare (
          values-append_if_present (set_if_present "content-type" upstream.content_type [])
            upstream.set_cookie plain)
    ]
