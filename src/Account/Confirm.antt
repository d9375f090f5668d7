-- ===== src/Account/Confirm.antt =====
-- apps/web/app/confirm-email-change/confirm-email-change-form.tsx: the page that confirms a new email. Its
-- effect runs after each render that changes what it depends on, and posts the token once.
use release_ops.Common.{
  ℕ, zero, suc, String, ◌≡◌, refl, Bool, true, false, ◌&&◌, ◌||◌, Option, none, some, if◌then◌else◌,
  eqb, ◌or_else◌, Bool-cases, inl, inr, ap, sym, ◌∙◌,
}
use release_ops.Common.Text.{is_empty_text, includes}
use release_ops.Common.Json.{Value, str, obj, field, no_field}
use release_ops.Http.Client
use release_ops.Http.Client.{
  ClientError, api_error, abort_error, network_error, Outcome, returned, threw,
}
use release_ops.Account.{is_code}

-- The messages, where the page leads, the reference that remembers the request, and how often it posted.
pub record ConfirmPage : Type 0 where
  pub submit_error : Option String
  pub is_pending : Bool
  pub destination : Option String
  pub is_requested : Bool
  pub posts : ℕ

abbrev pub opened : ConfirmPage
opened = record {
  submit_error = none;
  is_pending = false;
  destination = none;
  is_requested = false;
  posts = 0;
}

abbrev pub resolve_confirm_error : ClientError → String
resolve_confirm_error (api_error code message status) =
    if eqb status 429 || is_code code "RATE_LIMITED"
    then "rateLimited"
    else if is_code code "VALIDATION_ERROR" && includes message "invalid or expired token"
    then "invalidToken"
    else "requestFailed"
resolve_confirm_error abort_error = "requestFailed"
resolve_confirm_error network_error = "requestFailed"

abbrev pub confirm_body : String → Value
confirm_body token = obj (field "token" (str token) no_field)

-- The request has come to its end.
abbrev pub settle_confirm : Outcome → ConfirmPage → ConfirmPage
settle_confirm (returned v) s = record s { destination = some "/"; is_pending = false }
settle_confirm (threw error) s = record s {
  submit_error = some (resolve_confirm_error error);
  is_pending = false;
}

or_true : (b : Bool) → b || true ≡ true
or_true true = refl
or_true false = refl

module _ (stringify : Value → String) (fetch : Client.Fetch) where
  abbrev pub confirm_request : String → Outcome
  confirm_request token =
      Client.post stringify fetch "/auth/confirm-email-change" (some (confirm_body token))

  -- The effect, with the end of its request.
  unfoldable pub confirm_effect : Option String → ConfirmPage → ConfirmPage
  confirm_effect none s = s
  confirm_effect (some token) s =
      if is_empty_text token || s.is_requested
      then s
      else settle_confirm (confirm_request token) (record s {
        is_pending = true;
        submit_error = none;
        is_requested = true;
        posts = suc s.posts;
      })

  unfoldable pub confirm_effects : ℕ → Option String → ConfirmPage → ConfirmPage
  confirm_effects zero token s = s
  confirm_effects (suc n) token s = confirm_effects n token (confirm_effect token s)

  -- The page once the token was posted.
  abbrev requested : String → ConfirmPage → ConfirmPage
  requested token s = settle_confirm (confirm_request token) (record s {
    is_pending = true;
    submit_error = none;
    is_requested = true;
    posts = suc s.posts;
  })

  confirm_effect-stays :
      (token : String) (s : ConfirmPage)
      → is_empty_text token || s.is_requested ≡ true
      → confirm_effect (some token) s ≡ s
  unfolding confirm_effect
  confirm_effect-stays token s h = rw h refl

  confirm_effect-requested :
      (token : String) (s : ConfirmPage)
      → is_empty_text token || s.is_requested ≡ false
      → confirm_effect (some token) s ≡ requested token s
  unfolding confirm_effect
  confirm_effect-requested token s h = rw h refl

  settle_confirm-keeps :
      (o : Outcome) (s : ConfirmPage)
      → ((settle_confirm o s).is_requested ≡ s.is_requested)
        × ((settle_confirm o s).posts ≡ s.posts)
  settle_confirm-keeps (returned v) s = (refl, refl)
  settle_confirm-keeps (threw error) s = (refl, refl)

  again :
      (token : Option String) (s : ConfirmPage)
      → confirm_effect token (confirm_effect token s) ≡ confirm_effect token s
  unfolding confirm_effect
  again none s = refl
  again (some token) s = elim (Bool-cases (is_empty_text token || s.is_requested)) [
    | inl stop ↦ ap (confirm_effect (some token)) (confirm_effect-stays token s stop)
    | inr go ↦
        let sent = confirm_effect-requested token s go in
        let known : is_empty_text token || (requested token s).is_requested ≡ true =
          ap (λ b. is_empty_text token || b) (settle_confirm-keeps (confirm_request token) _).0
          ∙ or_true (is_empty_text token) in
        ap (confirm_effect (some token)) sent
        ∙ confirm_effect-stays token (requested token s) known
        ∙ sym sent
  ]

  confirm_effects-fixed :
      (n : ℕ) (token : Option String) (s : ConfirmPage)
      → confirm_effect token s ≡ s
      → confirm_effects n token s ≡ s
  unfolding confirm_effects
  confirm_effects-fixed zero token s h = refl
  confirm_effects-fixed (suc n) token s h =
      ap (confirm_effects n token) h ∙ confirm_effects-fixed n token s h

  first_posts :
      (token : Option String)
      → (confirm_effect token opened).posts ≡ (if is_empty_text (token or_else "") then 0 else 1)
  unfolding confirm_effect
  first_posts none = refl
  first_posts (some token) = elim (Bool-cases (is_empty_text token)) [
    | inl blank ↦ rw blank refl
    | inr filled ↦ rw filled (settle_confirm-keeps (confirm_request token) _).1
  ]

  -- However often the effect runs, the page is as after the first time, and the token is posted once, or
  -- not at all where there is none.
  confirm_effects-once :
      (n : ℕ) (token : Option String)
      → (confirm_effects (suc n) token opened ≡ confirm_effect token opened)
        × ((confirm_effects (suc n) token opened).posts
            ≡ (if is_empty_text (token or_else "") then 0 else 1))
  unfolding confirm_effects
  confirm_effects-once n token =
      let same = confirm_effects-fixed n token (confirm_effect token opened) (again token opened) in
      (same, ap (λ s. s.posts) same ∙ first_posts token)
