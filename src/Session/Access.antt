-- ===== src/Session/Access.antt =====
-- The middleware's decisions.
use release_ops.Common.{
  String, ◌==◌, ◌≡◌, refl, ◌↔◌, ◌⊎◌, inl, inr, true, false, [], ◌∷◌, Option, if◌then◌else◌, arith,
}
use release_ops.Common.Text.{starts_with}
use release_ops.Common.Json.{insert}
use release_ops.Session.Middleware.{
  SessionFetch, Request, NextUrl, redirect, next, middleware, signed_in, get_session_user,
  is_public_auth_path, is_login_path, login_path,
}

-- The login page is a public page.
is_public_of_login : (p : String) → is_login_path p ≡ true → is_public_auth_path p ≡ true
unfolding is_public_auth_path is_login_path
is_public_of_login p h = rw h

module _ (go_api_url : Option String) (fetch : SessionFetch) (request : Request) where
  -- A request passes exactly if it is signed in and not on the login page, or is not signed in and
  -- on a public page.
  pub middleware-next_iff : (middleware go_api_url fetch request ≡ next) ↔ (
      ((signed_in (get_session_user go_api_url fetch request.cookie) ≡ true)
        × (is_login_path request.next_url.pathname ≡ false))
      ⊎ ((signed_in (get_session_user go_api_url fetch request.cookie) ≡ false)
          × (is_public_auth_path request.next_url.pathname ≡ true)))
  unfolding middleware
  middleware-next_iff = ground arith

  -- A redirect goes to the login page for a request that is not signed in, and home otherwise; the
  -- host stays, the query the request had is gone, and the new one of the login page names the page
  -- that was asked for, unless that is the home page.
  pub middleware-redirect :
      (url : NextUrl)
      → middleware go_api_url fetch request ≡ redirect url
      → (url.origin ≡ request.next_url.origin)
        × (((signed_in (get_session_user go_api_url fetch request.cookie) ≡ false)
              × (is_public_auth_path request.next_url.pathname ≡ false)
              × (url.pathname ≡ login_path)
              × (url.search_params ≡ (
                  if request.next_url.pathname == "/"
                  then []
                  else ("redirect", request.next_url.pathname) ∷ [])))
            ⊎ ((signed_in (get_session_user go_api_url fetch request.cookie) ≡ true)
                × (is_login_path request.next_url.pathname ≡ true)
                × (url.pathname ≡ "/")
                × (url.search_params ≡ [])))
  unfolding middleware insert
  middleware-redirect url h = ground arith

login-IsPublic : is_public_auth_path login_path ≡ true
unfolding is_public_auth_path
login-IsPublic = refl

home-IsNotLogin : is_login_path "/" ≡ false
unfolding is_login_path starts_with
home-IsNotLogin = refl

-- Following a redirect ends there: the request for the page that it names passes, as long as the
-- session service answers the same.
pub middleware_once :
    (go_api_url : Option String) (fetch : SessionFetch) (request : Request) (url : NextUrl)
    → middleware go_api_url fetch request ≡ redirect url
    → middleware go_api_url fetch (record request { next_url = url }) ≡ next
middleware_once go_api_url fetch request url h =
    (middleware-next_iff go_api_url fetch (record request { next_url = url })).1
      (elim ((middleware-redirect go_api_url fetch request url h).1) [
        | inl (out, _, path, _) ↦ inr (out, rw path login-IsPublic)
        | inr (signed, _, path, _) ↦ inl (signed, rw path home-IsNotLogin)
      ])
