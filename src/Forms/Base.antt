-- ===== src/Forms/Base.antt =====
-- What the forms share: their mode, the saved result of a call, and the entities they edit
-- (apps/web/lib/query/types.ts, the fields that the forms read).
use release_ops.Common.{
  String, Bool, true, false, List, Option, none, some, if◌then◌else◌, ◌≡◌, refl, ◌⊎◌, inl, inr,
}
use release_ops.Common.Text.{is_empty_text}
use release_ops.Common.Json.{Object}

pub data Mode : Type 0 where
  create edit : Mode

abbrev pub is_create : Mode → Bool
is_create create = true
is_create edit = false

-- How a call to the server ends: normally, with an `ApiError` and its message, or otherwise.
pub data Saved : Type 0 where
  saved : Saved
  refused : String → Saved
  crashed : Saved

-- What `handleSubmit` does before its call: it shows an error, makes a call, or has none to make.
pub data Attempt {ℓ} (C : Type ℓ) : Type ℓ where
  invalid : String → Attempt C
  call : C → Attempt C
  no_call : Attempt C

-- The end of `handleSubmit`: the error that is shown, and whether the form closes.
unfoldable pub conclude {ℓ} : {C : Type ℓ} → Attempt C → Saved → Option String × Bool
conclude (invalid message) result = (some message, false)
conclude no_call result = (none, true)
conclude (call c) saved = (none, true)
conclude (call c) (refused message) = (some message, false)
conclude (call c) crashed = (some "saveFailed", false)

-- A form closes exactly if its input was valid and the call, if one was made, succeeded. It then
-- shows no error, and an error otherwise: the validation's, the server's, or a general one.
pub conclude-cases {ℓ} :
    {C : Type ℓ} (attempt : Attempt C) (result : Saved)
    → ((conclude attempt result ≡ (none, true))
        × ((attempt ≡ no_call) ⊎ ((c : C) × (attempt ≡ call c) × (result ≡ saved))))
      ⊎ ((message : String) × (conclude attempt result ≡ (some message, false))
          × ((attempt ≡ invalid message)
              ⊎ ((c : C) × (attempt ≡ call c)
                  × ((result ≡ refused message)
                      ⊎ ((result ≡ crashed) × (message ≡ "saveFailed"))))))
unfolding conclude
conclude-cases (invalid message) result = inr (message, refl, inl refl)
conclude-cases no_call result = inl (refl, inl refl)
conclude-cases (call c) saved = inl (refl, inr (c, refl, refl))
conclude-cases (call c) (refused message) = inr (message, refl, inr (c, refl, inl refl))
conclude-cases (call c) crashed = inr ("saveFailed", refl, inr (c, refl, inr (refl, refl)))

pub record Integration : Type 0 where
  pub id : String
  pub kind : String
  pub name : String
  pub base_url : Option String
  pub is_default : Bool
  pub has_secret : Bool

pub record NotificationTarget : Type 0 where
  pub id : String
  pub name : String
  pub events : List String
  pub has_secret : Bool
  pub enabled : Bool

pub record TicketProject : Type 0 where
  pub id : String
  pub integration_id : String
  pub external_project_id : String
  pub name : String
  pub create_config : Object
  pub status_mapping : Object
  pub content_templates : Object
  pub on_open_ticket_policy : String

pub record Repo : Type 0 where
  pub id : String
  pub source_kind : String
  pub project_path : String
  pub enabled : Bool
  pub include_prereleases : Bool
  pub source_integration_id : Option String
  pub ticket_project_id : String
  pub notification_target_ids : List String

-- `s || null`
abbrev pub or_null : String → Option String
or_null s = if is_empty_text s then none else some s

-- `o ?? ""`
abbrev pub or_empty : Option String → String
or_empty none = ""
or_empty (some s) = s
