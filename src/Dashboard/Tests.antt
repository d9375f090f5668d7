-- ===== src/Dashboard/Tests.antt =====
-- Examples for the dashboard.
use release_ops.Common.{ℕ, String, ◌≡◌, refl, true, List, [], ◌∷◌, none, some, arith}
use release_ops.Dashboard.PageSize.{
  page_size_options, max_page_size, whole, Storage, is_allowed_page_size, mounted_page_size,
  set_page_size,
}
use release_ops.Dashboard.PageSize.Persist.{mounted-set_page_size}
use release_ops.Dashboard.PollHistory.{State, next_page, handle}
use release_ops.Dashboard.PollHistory.Pages.{drop, follow, follow-all, IsPlaced, handle-IsPlaced}
use release_ops.Dashboard.Badges.{Protocol, PollRunEvent, event_ticket_cell, link, is_http_url}

abbrev tampered : Storage
tampered = record {
  in_browser = true;
  readable = true;
  writable = true;
  entries = ("size", "9000") ∷ [];
}

fifty_allowed : is_allowed_page_size (whole 50) page_size_options max_page_size ≡ true
unfolding is_allowed_page_size
fifty_allowed = refl

mounted-set_page_size_example :
    let (shown, after) =
      set_page_size "size" page_size_options max_page_size (whole 50) (10, tampered) in
    (shown ≡ 50) × (mounted_page_size after "size" 25 page_size_options max_page_size ≡ 50)
mounted-set_page_size_example =
    mounted-set_page_size tampered "size" 25 50 10 refl refl refl fifty_allowed

abbrev second_page : State
second_page = record { offset = 2; page_size = 2; storage = tampered; selected_run_id = none }

abbrev runs : List ℕ
runs = 11 ∷ 12 ∷ 13 ∷ 14 ∷ 15 ∷ []

follow-all_example : follow 4 second_page runs ≡ drop 2 runs
follow-all_example = follow-all 4 second_page runs (omega arith) (omega arith)

second_page-IsPlaced : IsPlaced second_page
second_page-IsPlaced = record { count = 1; start = refl; positive = omega arith }

handle-IsPlaced_example : IsPlaced (handle next_page second_page)
handle-IsPlaced_example = handle-IsPlaced next_page second_page second_page-IsPlaced

abbrev partial : String
partial = "partial"

abbrev https : Protocol
https value = some "https:"

abbrev created_event : PollRunEvent
created_event = record {
  monitored_repo_id = some "r1";
  project_path = some "acme/web";
  ticket_external_id = some "REL-1";
  ticket_url = some "https://jira.example/REL-1";
}

shown_link : event_ticket_cell https created_event ≡ link "https://jira.example/REL-1" "REL-1"
unfolding event_ticket_cell is_http_url
shown_link = refl
