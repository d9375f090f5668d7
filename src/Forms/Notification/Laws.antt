-- ===== src/Forms/Notification/Laws.antt =====
-- What the drawer of a notification target sends.
use release_ops.Common.{
  String, ◌≡◌, refl, Bool, true, false, not, List, is_empty, Option, none, some, arith, All,
  keep-All,
}
use release_ops.Common.Text.{trim, is_empty_text}
use release_ops.Integrations.Kinds.{has}
use release_ops.Forms.Base.{edit, NotificationTarget, call}
use release_ops.Forms.Notification.{
  Props, State, Call, on_create, on_update, submit, reset_effect, notification_event_options,
}

-- The address that a target has after a call: the one sent, or the one stored before.
abbrev pub has_url_after : Option NotificationTarget → Call → Bool
has_url_after target (on_create name url events enabled) = not (is_empty_text url)
has_url_after target (on_update id name (some url) events enabled) = not (is_empty_text url)
has_url_after none (on_update id name none events enabled) = false
has_url_after (some target) (on_update id name none events enabled) = target.has_secret

abbrev pub events_of : Call → List String
events_of (on_create name url events enabled) = events
events_of (on_update id name url events enabled) = events

-- After any call, the target has an address, and an event that it is told of.
submit-has_url :
    (p : Props) (s : State) (c : Call)
    → submit p s ≡ call c
    → (has_url_after p.target c ≡ true) × (is_empty (events_of c) ≡ false)
unfolding submit
submit-has_url p s c h = (ground arith, ground arith)

-- Opening a stored target and saving it unchanged sends its name, its switch and those of its events
-- that the drawer knows, and no address, so that the stored one stays.
submit-open :
    (p : Props) (s : State) (target : NotificationTarget)
    → p.is_open ≡ true
    → p.mode ≡ edit
    → p.target ≡ some target
    → is_empty_text (trim target.name) ≡ false
    → target.has_secret ≡ true
    → All (λ e. has notification_event_options e ≡ true) target.events
    → is_empty target.events ≡ false
    → submit p (reset_effect p s)
      ≡ call (on_update target.id (trim target.name) none target.events target.enabled)
unfolding submit reset_effect trim
submit-open p s target o m t name stored known events = rw o (
    rw (m, t)
      (rw (name, stored)
        (rw (keep-All (has notification_event_options) target.events known) (rw events refl))))
