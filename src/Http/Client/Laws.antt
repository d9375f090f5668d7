-- ===== src/Http/Client/Laws.antt =====
-- What a caller of the client can rely on.
use release_ops.Common.{
  ℕ, String, ◌≡◌, refl, true, false, Option, none, some, arith, ◌⊎◌, inl, inr, ◌≢◌, eqb, Bool-cases,
}
use release_ops.Common.Json.{Value, lookup}
use release_ops.Http.Client.{
  ClientError, api_error, abort_error, network_error, JsonRead, parsed, malformed, json_aborted,
  ApiResponse, FetchResult, answered, aborted, failed, Fetch, Outcome, returned, threw,
  parse_api_error, read_response, request_init, request,
}

-- The status that an error carries.
abbrev pub error_status : ClientError → Option ℕ
error_status (api_error code message status) = some status
error_status _ = none

parse_api_error-status : (r : ApiResponse) → error_status (parse_api_error r) ≡ some r.status
unfolding parse_api_error
parse_api_error-status r = ground arith

-- What a response leads to.
abbrev pub Reads : ApiResponse → Outcome → Type 0
Reads r outcome =
    ((r.ok ≡ false)
      × (outcome ≡ threw (parse_api_error r))
      × (error_status (parse_api_error r) ≡ some r.status))
    ⊎ ((r.ok ≡ true) × (r.status ≡ 204) × (outcome ≡ returned none))
    ⊎ ((v : Value) × (r.ok ≡ true)
        × (r.status ≢ 204)
        × (r.json ≡ parsed v)
        × (outcome ≡ returned (some v)))
    ⊎ ((r.ok ≡ true)
        × (r.status ≢ 204)
        × (((r.json ≡ malformed) × (outcome ≡ threw network_error))
            ⊎ ((r.json ≡ json_aborted) × (outcome ≡ threw abort_error))))

JsonRead-cases :
    (j : JsonRead) → ((v : Value) × (j ≡ parsed v)) ⊎ (j ≡ malformed) ⊎ (j ≡ json_aborted)
JsonRead-cases (parsed v) = inl (v, refl)
JsonRead-cases malformed = inr (inl refl)
JsonRead-cases json_aborted = inr (inr refl)

read_response-Reads : (r : ApiResponse) → Reads r (read_response r)
unfolding read_response
read_response-Reads r = elim (JsonRead-cases r.json) [
  | inl (v, e) ↦ elim (Bool-cases r.ok) [
    | inr bad ↦ inl (bad, rw bad, parse_api_error-status r)
    | inl ok ↦ elim (Bool-cases (eqb r.status 204)) [
      | inl empty ↦ inr (inl (ok, ground arith, ground arith))
      | inr full ↦ inr (inr (inl (v, ok, ground arith, e, ground arith)))
    ]
  ]
  | inr bad_json ↦ elim (Bool-cases r.ok) [
    | inr bad ↦ inl (bad, rw bad, parse_api_error-status r)
    | inl ok ↦ elim (Bool-cases (eqb r.status 204)) [
      | inl empty ↦ inr (inl (ok, ground arith, ground arith))
      | inr full ↦ inr (inr (inr (ok, ground arith, ground arith)))
    ]
  ]
]

module _ (stringify : Value → String) (fetch : Fetch) (method path : String)
    (body : Option Value) where
  -- A call whose fetch is cancelled throws the cancellation, one that cannot connect throws a
  -- network error. A response with a status of failure throws an API error with that status, one
  -- with status 204 returns nothing, and any other returns its parsed body, or throws: a network
  -- error if the body is no JSON, the cancellation if reading it is cancelled.
  pub request_cases :
      let outcome = request stringify fetch method path body in
      let answer = fetch (request_init stringify fetch method path body) in
      ((answer ≡ aborted) × (outcome ≡ threw abort_error))
      ⊎ ((answer ≡ failed) × (outcome ≡ threw network_error))
      ⊎ ((r : ApiResponse) × (answer ≡ answered r) × Reads r outcome)
  unfolding request
  request_cases =
      elim (fetch (request_init stringify fetch method path body))
        as (λ (answer : FetchResult).
          let outcome : Outcome = elim answer [
            | answered response ↦ read_response response
            | aborted ↦ threw abort_error
            | failed ↦ threw network_error
          ] in
          ((answer ≡ aborted) × (outcome ≡ threw abort_error))
          ⊎ ((answer ≡ failed) × (outcome ≡ threw network_error))
          ⊎ ((r : ApiResponse) × (answer ≡ answered r) × Reads r outcome)) [
            | answered r ↦ inr (inr (r, refl, read_response-Reads r))
            | aborted ↦ inl (refl, refl)
            | failed ↦ inr (inl (refl, refl))
          ]

-- A body is sent exactly with its content type: `get` and `delete` send none.
pub request_init-content :
    (stringify : Value → String) (fetch : Fetch) (method path : String) (body : Option Value)
    → (((request_init stringify fetch method path body).body ≡ none)
        × (lookup "Content-Type" (request_init stringify fetch method path body).headers ≡ none)
        × (body ≡ none))
      ⊎ ((v : Value) × (body ≡ some v)
          × ((request_init stringify fetch method path body).body ≡ some (stringify v))
          × (lookup "Content-Type" (request_init stringify fetch method path body).headers
              ≡ some "application/json"))
unfolding lookup
request_init-content stringify fetch method path none = inl (refl, refl, refl)
request_init-content stringify fetch method path (some v) = inr (v, refl, refl, refl)
