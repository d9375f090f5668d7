-- ===== src/Account/Profile/Laws.antt =====
-- What the forms of the profile do with what was typed.
use release_ops.Common.{
  ℕ, ◌≤◌, ◌||◌, eqb, ltb, not, ◌==◌, String, Bool, if◌then◌else◌, eq_iff, ◌≡◌, ◌⊎◌, refl, sym,
  subst, inl, inr, true, false, Option, none, some, arith, Bool-cases, Option-cases,
}
use release_ops.Common.Text.{is_empty_text, trim}
use release_ops.Common.Json.{Value}
use release_ops.Http.Client
use release_ops.Http.Client.{
  ClientError, api_error, abort_error, network_error, Outcome, returned, threw,
}
use release_ops.Account.{units, is_code}
use release_ops.Account.Laws.{Accepted, posted, post-returned}
use release_ops.Account.Profile.{
  EmailForm, PasswordChange, resolve_email_error, resolve_change_error, email_path, email_body,
  change_path, change_body, start_email, finish_email, start_change, finish_change,
  request_email_change, change_password, send_change, handle_email_change, handle_password_change,
  validate_password_form,
}

-- A message that the view renders: it is there, and not empty.
abbrev pub Visible : Option String → Type 0
Visible message = (text : String) × (message ≡ some text) × (is_empty_text text ≡ false)

-- An error of the server whose own text is empty.
abbrev pub IsSilent : ClientError → Type 0
IsSilent error = (code : Value) × (status : ℕ) × (error ≡ api_error code "" status)

-- Where a form failed, one message is shown: that of the validation, or that of the call that failed,
-- which is missing only where the server's own text is empty.
abbrev pub ShowsOne : Outcome → Option String → Option String → Type 0
ShowsOne call first second =
    (Visible first × (second ≡ none))
    ⊎ ((first ≡ none)
        × ((error : ClientError) × (call ≡ threw error)
            × (Visible second ⊎ (IsSilent error × (second ≡ some "")))))

abbrev Shown : ClientError → String → Type 0
Shown error message = Visible (some message) ⊎ (IsSilent error × (some message ≡ some ""))

own_text :
    (code : Value) (message : String) (status : ℕ) → Shown (api_error code message status) message
own_text code String.[] status = inr ((code, status, refl), refl)
own_text code (String.◌∷◌ c s) status = inl (_, refl, refl)

resolve_email_error-Shown : (error : ClientError) → Shown error (resolve_email_error error)
resolve_email_error-Shown abort_error = inl (_, refl, refl)
resolve_email_error-Shown network_error = inl (_, refl, refl)
resolve_email_error-Shown (api_error code message status) = elim (Bool-cases (eqb status 503)) [
  | inl e ↦ rw e (inl (_, refl, refl))
  | inr n ↦ elim (Bool-cases (eqb status 401)) [
    | inl e ↦ rw n (rw e (inl (_, refl, refl)))
    | inr m ↦ rw n (rw m (own_text code message status))
  ]
]

resolve_change_error-Shown : (error : ClientError) → Shown error (resolve_change_error error)
resolve_change_error-Shown abort_error = inl (_, refl, refl)
resolve_change_error-Shown network_error = inl (_, refl, refl)
resolve_change_error-Shown (api_error code message status) = elim (Bool-cases (eqb status 401)) [
  | inl e ↦ rw e (inl (_, refl, refl))
  | inr n ↦ elim (Bool-cases (eqb status 429 || is_code code "RATE_LIMITED")) [
    | inl e ↦ rw n (rw e (inl (_, refl, refl)))
    | inr m ↦ rw n (rw m (own_text code message status))
  ]
]

-- Every message of a chain of tests has a text.
abbrev AreFilled : Option String → Type 0
AreFilled found = (error : String) → found ≡ some error → is_empty_text error ≡ false

none-AreFilled : AreFilled none
none-AreFilled error h = absurd (cc)

if-AreFilled :
    (test : Bool) (message : String) (rest : Option String)
    → is_empty_text message ≡ false
    → AreFilled rest
    → AreFilled (if test then some message else rest)
if-AreFilled true message rest filled later error h =
    let same : message ≡ error = cc in subst (λ m. is_empty_text m ≡ false) same filled
if-AreFilled false message rest filled later error h = later error h

validate_password_form-filled : (s : PasswordChange) → AreFilled (validate_password_form s)
unfolding validate_password_form
validate_password_form-filled s =
    if-AreFilled (is_empty_text s.current_password)
      "changePassword.validation.currentPasswordRequired" _ refl
      (if-AreFilled (is_empty_text s.new_password) "changePassword.validation.newPasswordRequired" _
        refl
        (if-AreFilled (ltb (units s.new_password) 8) "changePassword.validation.newPasswordTooShort"
          _ refl
          (if-AreFilled (is_empty_text s.confirm_password)
            "changePassword.validation.confirmPasswordRequired" _ refl
            (if-AreFilled (not (s.new_password == s.confirm_password))
              "changePassword.validation.passwordMismatch" none refl none-AreFilled))))

module _ (stringify : Value → String) (fetch : Client.Fetch) where
  -- The email is on its way: what was sent, and that the form is empty again.
  pub record EmailSent (s after : EmailForm) : Type 0 where
    pub filled : is_empty_text (trim s.new_email) ≡ false
    pub known : is_empty_text s.email_current_password ≡ false
    pub accepted :
        Accepted (
          posted stringify fetch email_path
            (email_body (trim s.new_email) s.email_current_password))
    pub emptied : (after.new_email ≡ "") × (after.email_current_password ≡ "")
    pub silent : (after.email_validation_error ≡ none) × (after.email_change_error ≡ none)

  pub record EmailKept (s after : EmailForm) : Type 0 where
    pub kept :
        (after.new_email ≡ s.new_email) × (after.email_current_password ≡ s.email_current_password)
    pub shown :
        ShowsOne
          (request_email_change stringify fetch s)
          after.email_validation_error
          after.email_change_error

  abbrev pub EmailEnd : EmailForm → EmailForm → Type 0
  EmailEnd s after =
      ((after.email_change_pending ≡ true) × EmailSent s after)
      ⊎ ((after.email_change_pending ≡ false) × EmailKept s after)

  email_end :
      (s : EmailForm)
      → is_empty_text (trim s.new_email) ≡ false
      → is_empty_text s.email_current_password ≡ false
      → (o : Outcome) → o ≡ request_email_change stringify fetch s
      → EmailEnd s (finish_email (start_email s) o)
  email_end s filled known (returned v) e = inl (
    refl,
    record {
      filled = filled;
      known = known;
      accepted = post-returned stringify fetch email_path _ v (sym e);
      emptied = (refl, refl);
      silent = (refl, refl);
    },
  )
  email_end s filled known (threw error) e = inr (
    refl,
    record {
      kept = (refl, refl);
      shown = inr (refl, (error, sym e, resolve_email_error-Shown error));
    },
  )

  -- Asking for a new email either succeeds, and then the server accepted the trimmed address with the
  -- password, both were typed, the fields are empty and no message is shown; or what was typed stays
  -- and one message is shown, and no other: that of the validation, or, for a call that failed, that
  -- of the failure, which the view leaves out only where the text of the server is empty.
  pub handle_email_change-ends :
      (s : EmailForm) → EmailEnd s (handle_email_change stringify fetch s)
  unfolding handle_email_change
  handle_email_change-ends s = elim (Bool-cases (is_empty_text (trim s.new_email))) [
    | inl blank ↦
        rw blank (inr (refl, record { kept = (refl, refl); shown = inl ((_, refl, refl), refl) }))
    | inr filled ↦ elim (Bool-cases (is_empty_text s.email_current_password)) [
      | inl blank ↦ rw filled (
          rw blank
            (inr (refl, record { kept = (refl, refl); shown = inl ((_, refl, refl), refl) })))
      | inr known ↦
          rw filled
            (rw known (email_end s filled known (request_email_change stringify fetch s) refl))
    ]
  ]

  pub record PasswordSent (s after : PasswordChange) : Type 0 where
    pub known : is_empty_text s.current_password ≡ false
    pub long : 8 ≤ units s.new_password
    pub confirmed : s.new_password ≡ s.confirm_password
    pub accepted :
        Accepted
          (posted stringify fetch change_path (change_body s.current_password s.new_password))
    pub emptied :
        (after.current_password ≡ "") × (after.new_password ≡ "") × (after.confirm_password ≡ "")
    pub silent : (after.password_validation_error ≡ none) × (after.password_change_error ≡ none)

  pub record PasswordKept (s after : PasswordChange) : Type 0 where
    pub kept :
        (after.current_password ≡ s.current_password)
        × (after.new_password ≡ s.new_password)
        × (after.confirm_password ≡ s.confirm_password)
    pub shown :
        ShowsOne
          (change_password stringify fetch s)
          after.password_validation_error
          after.password_change_error

  abbrev pub PasswordEnd : PasswordChange → PasswordChange → Type 0
  PasswordEnd s after =
      ((after.password_change_success ≡ true) × PasswordSent s after)
      ⊎ ((after.password_change_success ≡ false) × PasswordKept s after)

  -- What a form without a validation error is.
  valid_form :
      (s : PasswordChange)
      → validate_password_form s ≡ none
      → (is_empty_text s.current_password ≡ false)
        × (8 ≤ units s.new_password)
        × (s.new_password ≡ s.confirm_password)
  unfolding validate_password_form
  valid_form s h =
      (ground arith, ground arith, ground (arith, eq_iff s.new_password s.confirm_password))

  password_end :
      (s : PasswordChange)
      → validate_password_form s ≡ none
      → (o : Outcome) → o ≡ change_password stringify fetch s
      → PasswordEnd s
          (finish_change (record (start_change s) { password_validation_error = none }) o)
  password_end s valid (returned v) e =
      let (known, long, confirmed) = valid_form s valid in
      inl (
        refl,
        record {
          known = known;
          long = long;
          confirmed = confirmed;
          accepted = post-returned stringify fetch change_path _ v (sym e);
          emptied = (refl, refl, refl);
          silent = (refl, refl);
        },
      )
  password_end s valid (threw error) e = inr (
    refl,
    record {
      kept = (refl, refl, refl);
      shown = inr (refl, (error, sym e, resolve_change_error-Shown error));
    },
  )

  -- Changing the password either succeeds, and then the current one was typed, the new one has eight
  -- code units or more and was confirmed, the server accepted both, the fields are empty and no message is
  -- shown; or what was typed stays and one message is shown, and no other: that of the validation, or, for
  -- a call that failed, that of the failure, which the view leaves out only where the text of the server
  -- is empty.
  pub handle_password_change-ends :
      (s : PasswordChange) → PasswordEnd s (handle_password_change stringify fetch s)
  unfolding handle_password_change
  handle_password_change-ends s = elim (Option-cases (validate_password_form s)) [
    | inl valid ↦
        subst (λ o. PasswordEnd s (send_change stringify fetch s o)) (sym valid)
          (password_end s valid (change_password stringify fetch s) refl)
    | inr (error, invalid) ↦
        subst (λ o. PasswordEnd s (send_change stringify fetch s o)) (sym invalid)
          (inr (
            refl,
            record {
              kept = (refl, refl, refl);
              shown = inl ((error, refl, validate_password_form-filled s error invalid), refl);
            },
          ))
  ]
