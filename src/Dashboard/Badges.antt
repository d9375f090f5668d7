-- ===== src/Dashboard/Badges.antt =====
-- apps/web/components/dashboard/status-card.tsx, poll-run-history.tsx and last-run-errors.tsx, and
-- apps/web/lib/poll/actions.ts: what is shown of a run's status, its events and its errors.
pub mod Laws
use Prim.Native.String
use release_ops.Common.{
  String, ◌==◌, Bool, true, false, not, ◌&&◌, ◌||◌, List, [], ◌∷◌, map, is_empty, Option, none,
  some, if◌then◌else◌, ◌or_else◌,
}
use release_ops.Common.Text.{is_empty_text}
use release_ops.Common.Json.{lookup, insert}
use release_ops.Integrations.Kinds.{has}

pub data Variant : Type 0 where
  success error warning info secondary : Variant

-- `runStatusVariant` of the status card.
unfoldable pub card_variant : Option String → Bool → Variant
card_variant status true = info
card_variant none false = secondary
card_variant (some status) false =
    if status == "success"
    then success
    else if status == "failed"
    then error
    else if status == "running"
    then info
    else secondary

-- `runStatusLabel` of the status card: the key of the text.
unfoldable pub card_label : Option String → Bool → String
card_label status true = "runStatus.polling"
card_label none false = "runStatus.never"
card_label (some status) false =
    if is_empty_text status
    then "runStatus.never"
    else if status == "success"
    then "runStatus.success"
    else if status == "failed"
    then "runStatus.failed"
    else if status == "partial"
    then "runStatus.partial"
    else if status == "running"
    then "runStatus.running"
    else "runStatus.unknown"

-- `runStatusVariant` of the history.
unfoldable pub history_variant : String → Variant
history_variant status =
    if status == "success"
    then success
    else if status == "failed"
    then error
    else if status == "partial"
    then warning
    else if status == "running"
    then info
    else secondary

-- A text, translated or as it is.
pub data Label : Type 0 where
  translated verbatim : String → Label

unfoldable pub history_label : String → Label
history_label status =
    if status == "success"
    then translated "runStatus.success"
    else if status == "failed"
    then translated "runStatus.failed"
    else if status == "partial"
    then translated "runStatus.partial"
    else if status == "running"
    then translated "runStatus.running"
    else verbatim status

unfoldable pub trigger_label : String → Label
trigger_label source =
    if source == "manual"
    then translated "runTrigger.manual"
    else if source == "scheduled"
    then translated "runTrigger.scheduled"
    else verbatim source

abbrev pub poll_event_actions : List String
poll_event_actions =
    "baseline" ∷ "skip" ∷ "create" ∷ "supersede" ∷ "merge" ∷ "skip_open" ∷ "error" ∷ []

unfoldable pub is_poll_event_action : String → Bool
is_poll_event_action value = has poll_event_actions value

unfoldable pub action_label : String → Label
unfolding is_poll_event_action
action_label action =
    if is_poll_event_action action
    then translated (String.◌++◌ "eventActions." action)
    else verbatim action

-- The fields of an event that are read here.
pub record PollRunEvent : Type 0 where
  pub monitored_repo_id : Option String
  pub project_path : Option String
  pub ticket_external_id : Option String
  pub ticket_url : Option String

-- `protocol` of `new URL(value)`, a parameter; `none` where it throws.
abbrev pub Protocol : Type 0
Protocol = String → Option String

abbrev pub is_web : Option String → Bool
is_web none = false
is_web (some p) = p == "http:" || p == "https:"

unfoldable pub is_http_url : Protocol → String → Bool
is_http_url protocol value = is_web (protocol value)

-- What the cell of an event's ticket shows.
pub data TicketCell : Type 0 where
  no_detail : TicketCell
  link : (href text : String) → TicketCell
  plain : String → TicketCell

-- `if (text)`: a text that is missing or empty counts as false.
abbrev pub present : Option String → Option String
present none = none
present (some s) = if is_empty_text s then none else some s

abbrev pub linked_cell : Protocol → String → Option String → TicketCell
linked_cell protocol id none = plain id
linked_cell protocol id (some url) = if is_http_url protocol url then link url id else plain id

abbrev pub ticket_cell_of : Protocol → Option String → Option String → TicketCell
ticket_cell_of protocol none url = no_detail
ticket_cell_of protocol (some id) url = linked_cell protocol id url

unfoldable pub event_ticket_cell : Protocol → PollRunEvent → TicketCell
unfolding is_http_url
event_ticket_cell protocol event =
    ticket_cell_of protocol (present event.ticket_external_id) (present event.ticket_url)

-- The map from repositories to paths of the dialog for one run.
abbrev pub add_path :
    Option String → Option String → List (String × String) → List (String × String)
add_path (some id) (some path) paths = insert id path paths
add_path id path paths = paths

add_paths : List PollRunEvent → List (String × String) → List (String × String)
add_paths [] paths = paths
add_paths (event ∷ events) paths =
    add_paths events (add_path (present event.monitored_repo_id) (present event.project_path) paths)

unfoldable pub repo_path_by_id : List PollRunEvent → List (String × String)
unfolding add_paths
repo_path_by_id events = add_paths events []

-- An error of the last run, and a repository of the status.
pub record PollRunError : Type 0 where
  pub repo_id : String
  pub message : String

pub record StatusRepo : Type 0 where
  pub id : String
  pub project_path : String

-- The last value of a key in a list that a `Map` is made from.
last_path : String → List StatusRepo → Option String
last_path id [] = none
last_path id (repo ∷ repos) =
    let later = last_path id repos in
    if repo.id == id then some (later or_else repo.project_path) else later

-- `repoPathById.get(error.repoId) ?? error.repoId`, with the message, for every error.
unfoldable pub last_run_errors : List PollRunError → List StatusRepo → List (String × String)
unfolding last_path
last_run_errors errors repos =
    map (λ (e : PollRunError). (last_path e.repo_id repos or_else e.repo_id, e.message)) errors
