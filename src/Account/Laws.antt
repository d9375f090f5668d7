-- ===== src/Account/Laws.antt =====
-- When the account forms lead on, and what they show otherwise.
use release_ops.Common.{
  ◌≤◌, String, ◌==◌, eq_iff, ◌≡◌, refl, sym, subst, ◌∙◌, ap, inl, inr, true, false, Option, none,
  some, ltb, arith, Bool-cases,
}
use release_ops.Common.Json.{Value}
use release_ops.Http.Client
use release_ops.Http.Client.{
  ClientError, Outcome, returned, threw, FetchResult, answered, aborted, failed, ApiResponse,
  abort_error, network_error, parse_api_error, read_response,
}
use release_ops.Http.Client.Laws.{Reads, request_cases}
use release_ops.Session.SafeRedirect.{UrlParser, safe_redirect_path}
use release_ops.Account.{
  units, PasswordForm, password_path, login_body, password_body, finish_login, finish_password,
  submit_login, submit_password,
}

not_returned : (e : ClientError) (v : Option Value) → threw e ≡ returned v → ⊥
not_returned e v h = absurd (cc)

-- A call that returned was answered with success.
abbrev pub Accepted : FetchResult → Type 0
Accepted answer = (r : ApiResponse) × (answer ≡ answered r) × (r.ok ≡ true)

Reads-returned : (r : ApiResponse) (v : Option Value) → Reads r (returned v) → r.ok ≡ true
Reads-returned r v (inl (bad, e, _)) = absurd (cc)
Reads-returned r v (inr (inl (ok, _, _))) = ok
Reads-returned r v (inr (inr (inl (w, ok, _, _, _)))) = ok
Reads-returned r v (inr (inr (inr (ok, _, _)))) = ok

module _ (stringify : Value → String) (fetch : Client.Fetch) where
  abbrev pub posted : String → Value → FetchResult
  posted path body = fetch (Client.request_init stringify fetch "POST" path (some body))

  pub post-returned :
      (path : String) (body : Value) (v : Option Value)
      → Client.post stringify fetch path (some body) ≡ returned v
      → Accepted (posted path body)
  unfolding Client.post
  post-returned path body v h = elim (request_cases stringify fetch "POST" path (some body)) [
    | inl (gone, e) ↦ absurd (not_returned abort_error v (sym e ∙ h))
    | inr (inl (gone, e)) ↦ absurd (not_returned network_error v (sym e ∙ h))
    | inr (inr (r, e, reads)) ↦ (r, e, Reads-returned r v (subst (Reads r) h reads))
  ]

  finish_login-destination :
      (parse : UrlParser) (redirect : Option String) (outcome : Outcome) (path : String)
      → (finish_login parse redirect outcome).destination ≡ some path
      → ((v : Option Value) × (outcome ≡ returned v))
        × (path ≡ safe_redirect_path parse redirect)
        × ((finish_login parse redirect outcome).error ≡ none)
  finish_login-destination parse redirect (threw e) path h = absurd (cc)
  finish_login-destination parse redirect (returned v) path h = ((v, refl), ground arith, refl)

  -- The login form leads on only if the server accepted the email and the password that were sent,
  -- to the safe form of the redirect, and shows no error then.
  pub submit_login-destination :
      (parse : UrlParser) (redirect : Option String) (email password path : String)
      → (submit_login stringify fetch parse redirect email password).destination ≡ some path
      → Accepted (posted "/auth/login" (login_body email password))
        × (path ≡ safe_redirect_path parse redirect)
        × ((submit_login stringify fetch parse redirect email password).error ≡ none)
  unfolding submit_login
  submit_login-destination parse redirect email password path h =
      let ((v, e), to, clean) = finish_login-destination parse redirect _ path h in
      (post-returned "/auth/login" (login_body email password) v e, to, clean)

  finish_password-destination :
      (outcome : Outcome) (path : String)
      → (finish_password outcome).destination ≡ some path
      → ((v : Option Value) × (outcome ≡ returned v)) × (path ≡ "/")
  finish_password-destination (threw e) path h = absurd (cc)
  finish_password-destination (returned v) path h = ((v, refl), ground arith)

  submit_password_sent :
      (form : PasswordForm) (token password confirmation : String)
      → ltb (units password) 8 ≡ false
      → password == confirmation ≡ true
      → submit_password stringify fetch form token password confirmation
        ≡ finish_password
            (Client.post stringify fetch (password_path form) (some (password_body token password)))
  unfolding submit_password
  submit_password_sent form token password confirmation long same = rw long (rw same refl)

  -- A form that sets a password leads on only if the password has eight code units or more and was
  -- confirmed, and the server accepted it with the token; it leads home.
  pub submit_password-destination :
      (form : PasswordForm) (token password confirmation path : String)
      → (submit_password stringify fetch form token password confirmation).destination ≡ some path
      → (8 ≤ units password)
        × (password ≡ confirmation)
        × Accepted (posted (password_path form) (password_body token password))
        × (path ≡ "/")
  unfolding submit_password
  submit_password-destination form token password confirmation path h =
      elim (Bool-cases (ltb (units password) 8)) [
        | inl short ↦ absurd (ground arith)
        | inr long ↦ elim (Bool-cases (password == confirmation)) [
          | inr differ ↦ absurd (ground arith)
          | inl same ↦
              let ((v, e), to) = finish_password-destination _ path (
                sym (
                  ap (λ r. r.destination)
                    (submit_password_sent form token password confirmation long same))
                ∙ h) in
              (
                ground arith,
                (eq_iff _ _).0 same,
                post-returned (password_path form) (password_body token password) v e,
                to,
              )
        ]
      ]
