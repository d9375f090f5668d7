-- ===== src/Session/Tests.antt =====
-- Examples for apps/web/middleware.ts and apps/web/lib/auth/safe-redirect.ts.
use release_ops.Common.{◌==◌, ◌≡◌, refl, ◌↔◌, ◌⊎◌, true, false, [], ◌∷◌, none, some, if◌then◌else◌}
use release_ops.Common.Text.{starts_with}
use release_ops.Common.Json.{insert}
use release_ops.Session.Middleware.{
  SessionFetch, Request, NextUrl, redirect, next, middleware, signed_in, get_session_user,
  is_public_auth_path, is_login_path, login_path,
}
use release_ops.Session.Access.{middleware-next_iff, middleware-redirect, middleware_once}
use release_ops.Session.SafeRedirect.{
  UrlParser, Resolved, internal_base, shown, safe_redirect_path, safe_redirect_path-origin,
}

-- A server that knows nobody.
abbrev signed_out : SessionFetch
signed_out url headers = some (record { ok = false; json = none })

abbrev repos_url : NextUrl
repos_url = record {
  origin = "https://ops.example";
  pathname = "/repos";
  search_params = ("tab", "all") ∷ [];
}

abbrev repos_request : Request
repos_request = record { next_url = repos_url; cookie = none }

abbrev login_page : NextUrl
login_page = record {
  origin = "https://ops.example";
  pathname = "/login";
  search_params = ("redirect", "/repos") ∷ [];
}

middleware-next_iff_example : (middleware none signed_out repos_request ≡ next) ↔ (
    ((signed_in (get_session_user none signed_out none) ≡ true) × (is_login_path "/repos" ≡ false))
    ⊎ ((signed_in (get_session_user none signed_out none) ≡ false)
        × (is_public_auth_path "/repos" ≡ true)))
middleware-next_iff_example = middleware-next_iff none signed_out repos_request

redirected : middleware none signed_out repos_request ≡ redirect login_page
unfolding middleware is_public_auth_path starts_with get_session_user insert
redirected = refl

middleware-redirect_example :
    (login_page.origin ≡ repos_url.origin)
    × (((signed_in (get_session_user none signed_out none) ≡ false)
          × (is_public_auth_path "/repos" ≡ false)
          × (login_page.pathname ≡ login_path)
          × (login_page.search_params
              ≡ (if "/repos" == "/" then [] else ("redirect", "/repos") ∷ [])))
        ⊎ ((signed_in (get_session_user none signed_out none) ≡ true)
            × (is_login_path "/repos" ≡ true)
            × (login_page.pathname ≡ "/")
            × (login_page.search_params ≡ [])))
middleware-redirect_example =
    middleware-redirect none signed_out repos_request login_page redirected

middleware_once_example :
    middleware none signed_out (record { next_url = login_page; cookie = none }) ≡ next
middleware_once_example = middleware_once none signed_out repos_request login_page redirected

-- What a browser resolves "/.//evil.example" to, whatever the text.
abbrev two_slashes : Resolved
two_slashes = record { origin = internal_base; pathname = "//evil.example"; search = ""; hash = "" }

abbrev dotted : UrlParser
dotted value base = some two_slashes

safe_redirect_path-origin_example :
    (safe_redirect_path dotted (some "/.//evil.example") ≡ "/")
    ⊎ ((r : Resolved) × (dotted "/.//evil.example" internal_base ≡ some r)
        × (r.origin ≡ internal_base)
        × (safe_redirect_path dotted (some "/.//evil.example") ≡ shown r)
        × (starts_with "/.//evil.example" "/" ≡ true)
        × (starts_with "/.//evil.example" "//" ≡ false)
        × (starts_with "/.//evil.example" "/\\" ≡ false))
safe_redirect_path-origin_example = safe_redirect_path-origin dotted "/.//evil.example"
