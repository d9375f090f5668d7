-- ===== src/Forms/Notification.antt =====
-- apps/web/components/notifications/notification-drawer.tsx and apps/web/lib/notifications/events.ts:
-- the drawer that adds and edits a notification target: its state, its effect and its handlers.
pub mod Laws
use release_ops.Common.{
  String, Bool, true, false, not, ◌&&◌, List, [], ◌∷◌, is_empty, keep, Option, none, some,
  if◌then◌else◌,
}
use release_ops.Common.Text.{trim, is_empty_text}
use release_ops.Integrations.Kinds.{has}
use release_ops.Forms.Base.{
  Mode, create, edit, is_create, NotificationTarget, Saved, Attempt, invalid, call, no_call,
  conclude,
}

abbrev pub notification_event_options : List String
notification_event_options = "create" ∷ "error" ∷ "supersede" ∷ []

abbrev pub default_notification_events : List String
default_notification_events = "create" ∷ "error" ∷ "supersede" ∷ []

pub record Props : Type 0 where
  pub mode : Mode
  pub target : Option NotificationTarget
  pub is_open : Bool

pub record State : Type 0 where
  pub name : String
  pub shoutrrr_url : String
  pub events : List String
  pub enabled : Bool
  pub form_error : Option String

abbrev pub load_target : NotificationTarget → State → State
load_target target s = record s {
  name = target.name;
  shoutrrr_url = "";
  events = keep (has notification_event_options) target.events;
  enabled = target.enabled;
  form_error = none;
}

abbrev pub load_new : State → State
load_new s = record s {
  name = "";
  shoutrrr_url = "";
  events = default_notification_events;
  enabled = true;
  form_error = none;
}

abbrev pub load_form : Mode → Option NotificationTarget → State → State
load_form edit (some target) s = load_target target s
load_form edit none s = load_new s
load_form create target s = load_new s

-- The effect on `open`, `mode` and `target`.
unfoldable pub reset_effect : Props → State → State
reset_effect p s = if not p.is_open then s else load_form p.mode p.target s

-- `mode === "create" || !target?.hasSecret`
abbrev pub url_required : Mode → Option NotificationTarget → Bool
url_required create target = true
url_required edit none = true
url_required edit (some target) = not target.has_secret

pub data Call : Type 0 where
  on_create : (name shoutrrr_url : String) (events : List String) (enabled : Bool) → Call
  on_update :
      (id name : String) (shoutrrr_url : Option String) (events : List String) (enabled : Bool)
      → Call

abbrev pub target_call : Mode → Option NotificationTarget → State → Attempt Call
target_call create target s =
    call (on_create (trim s.name) (trim s.shoutrrr_url) s.events s.enabled)
target_call edit (some target) s =
    let url = trim s.shoutrrr_url in
    call (
      on_update target.id (trim s.name) (if is_empty_text url then none else some url) s.events
        s.enabled)
target_call edit none s = no_call

-- The part of `handleSubmit` before the call.
unfoldable pub submit : Props → State → Attempt Call
submit p s =
    if is_empty_text (trim s.name)
    then invalid "validation.nameRequired"
    else if url_required p.mode p.target && is_empty_text (trim s.shoutrrr_url)
    then invalid "validation.urlRequired"
    else if is_empty s.events
    then invalid "validation.eventsRequired"
    else target_call p.mode p.target s

-- The whole handler, given how the call ends: the new state, and whether the drawer closes.
unfoldable pub handle_submit : Props → Saved → State → State × Bool
unfolding submit
handle_submit p result s =
    let (error, closed) = conclude (submit p s) result in (record s { form_error = error }, closed)
