-- ===== src/Forms/Integration/Laws.antt =====
-- What the drawer of an integration sends.
use release_ops.Common.{
  String, ◌==◌, eq_iff, ◌≡◌, refl, sym, ◌∙◌, ap, true, false, ◌&&◌, Option, none, some,
  if◌then◌else◌, arith, inl, inr, Bool-cases, ◌⊎◌,
}
use release_ops.Common.Text.{trim, is_empty_text}
use release_ops.Integrations.Kinds.{kind_requires_base_url, kind_token_optional, source_kinds, has}
use release_ops.Integrations.Secret.{build_integration_secret}
use release_ops.Forms.Base.{Mode, create, edit, Integration, call}
use release_ops.Forms.Integration.{
  Props, State, Call, on_create, on_update, IntegrationInput, payload, new_secret, changed_secret,
  active_kind, first_error, submit, attempt, integration_call, normalize_base_url, stored_base_url,
  secret_required,
}

-- The form passed every test.
valid-of-call :
    (e : Option String) (p : Props) (s : State) (c : Call) → attempt e p s ≡ call c → e ≡ none
valid-of-call (some m) p s c h = absurd (cc)
valid-of-call none p s c h = refl

submit-attempt : (p : Props) (s : State) → submit p s ≡ attempt (first_error p s) p s
unfolding submit
submit-attempt p s = refl

-- What a call carries.
abbrev pub input_of : Call → IntegrationInput
input_of (on_create kind input secret) = input
input_of (on_update id input secret) = input

module _ (m : Mode) (i : Option Integration) (kind : String) (s : State) where
  update-payload :
      (id : String) (input : IntegrationInput) (secret : Option String)
      → integration_call m i kind s ≡ call (on_update id input secret)
      → (m ≡ edit) × (input ≡ payload kind s) × (secret ≡ changed_secret kind s)
  update-payload id input secret h = ground arith

  call-payload : (c : Call) → integration_call m i kind s ≡ call c → input_of c ≡ payload kind s
  call-payload c h = ground arith

  create-secret :
      (k : String) (input : IntegrationInput) (secret : String)
      → integration_call m i kind s ≡ call (on_create k input secret)
      → (m ≡ create) × (k ≡ kind) × (secret ≡ new_secret kind s)
  create-secret k input secret h = ground arith

changed_secret-none :
    (kind : String) (s : State)
    → changed_secret kind s ≡ none
    → is_empty_text (trim s.secret) ≡ true
changed_secret-none kind s h = ground arith

valid-cases :
    (p : Props) (s : State)
    → first_error p s ≡ none
    → (is_empty_text (trim s.name) ≡ false)
      × ((kind_requires_base_url (active_kind p s) && is_empty_text (trim s.base_url)) ≡ false)
      × ((secret_required p s && is_empty_text (trim s.secret)) ≡ false)
unfolding first_error
valid-cases p s h = ground arith

same_url :
    (p : Props) (s : State)
    → first_error p s ≡ none
    → p.mode ≡ edit
    → kind_requires_base_url (active_kind p s) ≡ true
    → is_empty_text (trim s.secret) ≡ true
    → (normalize_base_url (trim s.base_url) == normalize_base_url (stored_base_url p.integration))
      ≡ true
unfolding first_error
same_url p s h m r e = ground arith

-- An update that sends no secret leaves the base URL as it is stored, up to slashes and blanks, for
-- every kind that has a base URL: the stored secret is never sent to another server.
pub submit-keeps_base_url :
    (p : Props) (s : State) (id : String) (input : IntegrationInput)
    → submit p s ≡ call (on_update id input none)
    → kind_requires_base_url (active_kind p s) ≡ true
    → (input.base_url ≡ some (trim s.base_url))
      × (normalize_base_url (trim s.base_url) ≡ normalize_base_url (stored_base_url p.integration))
submit-keeps_base_url p s id input h r =
    let sent = sym (submit-attempt p s) ∙ h in
    let valid = valid-of-call (first_error p s) p s (on_update id input none) sent in
    let made = ap (λ e. attempt e p s) (sym valid) ∙ sent in
    let (m, i, k) = update-payload p.mode p.integration (active_kind p s) s id input none made in
    let same = same_url p s valid m r (changed_secret-none (active_kind p s) s (sym k)) in
    (ap (λ (x : IntegrationInput). x.base_url) i ∙ rw r, (eq_iff _ _).0 same)

url-cases :
    (kind : String) (s : State)
    → (kind_requires_base_url kind && is_empty_text (trim s.base_url)) ≡ false
    → ((payload kind s).base_url ≡ none) × (kind_requires_base_url kind ≡ false)
      ⊎ ((url : String) × ((payload kind s).base_url ≡ some url)
          × (is_empty_text url ≡ false)
          × (kind_requires_base_url kind ≡ true))
url-cases kind s h = elim (Bool-cases (kind_requires_base_url kind)) [
  | inl r ↦ inr (trim s.base_url, rw r refl, ground arith, r)
  | inr n ↦ inl (rw n refl, n)
]

-- Every call carries a name, a base URL exactly if the kind requires one, and a default exactly if
-- the kind is a source of releases.
pub submit-input :
    (p : Props) (s : State) (c : Call)
    → submit p s ≡ call c
    → (is_empty_text (input_of c).name ≡ false)
      × (((input_of c).base_url ≡ none) × (kind_requires_base_url (active_kind p s) ≡ false)
          ⊎ ((url : String) × ((input_of c).base_url ≡ some url)
              × (is_empty_text url ≡ false)
              × (kind_requires_base_url (active_kind p s) ≡ true)))
      × ((input_of c).is_default
          ≡ (if has source_kinds (active_kind p s) then some s.is_default else none))
submit-input p s c h =
    let sent = sym (submit-attempt p s) ∙ h in
    let valid = valid-of-call (first_error p s) p s c sent in
    let made = ap (λ e. attempt e p s) (sym valid) ∙ sent in
    let i = call-payload p.mode p.integration (active_kind p s) s c made in
    let (name, url, _) = valid-cases p s valid in
    rw i (name, url-cases (active_kind p s) s url, refl)

must_fill :
    (p : Props) (s : State)
    → p.mode ≡ create
    → kind_token_optional (active_kind p s) ≡ false
    → (secret_required p s && is_empty_text (trim s.secret)) ≡ false
    → is_empty_text (trim s.secret) ≡ false
unfolding secret_required
must_fill p s m o h = ground arith

-- An integration that is created has a secret, unless its kind does without one.
submit-create_secret :
    (p : Props) (s : State) (kind secret : String) (input : IntegrationInput)
    → submit p s ≡ call (on_create kind input secret)
    → kind_token_optional kind ≡ false
    → (is_empty_text (trim s.secret) ≡ false)
      × (secret ≡ build_integration_secret kind (trim s.secret) (trim s.email))
submit-create_secret p s kind secret input h o =
    let sent = sym (submit-attempt p s) ∙ h in
    let valid = valid-of-call (first_error p s) p s (on_create kind input secret) sent in
    let made = ap (λ e. attempt e p s) (sym valid) ∙ sent in
    let (m, k, e) = create-secret p.mode p.integration (active_kind p s) s kind input secret made in
    let (_, _, full) = valid-cases p s valid in
    let filled = must_fill p s m (rw (sym k) o) full in (filled, rw (e, k) (rw filled refl))
