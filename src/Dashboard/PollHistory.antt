-- ===== src/Dashboard/PollHistory.antt =====
-- apps/web/components/dashboard/poll-run-history.tsx and apps/web/lib/hooks/use-poll.ts: paging
-- through the poll runs. The size of a page is that of `usePersistedPageSize`.
pub mod Pages
use Prim.Native.String
use release_ops.Common.{
  ℕ, suc, zero, ◌+◌, ◌-◌, String, Bool, true, false, not, ◌&&◌, List, [], ◌∷◌, length, Option, none,
  some, if◌then◌else◌, eqb, ltb,
}
use release_ops.Dashboard.PageSize.{
  Number, Storage, set_page_size, page_size_options, max_page_size,
}

-- The state of the list: where its page begins, its size, the stored size, and the run that is shown.
pub record State : Type 0 where
  pub offset : ℕ
  pub page_size : ℕ
  pub storage : Storage
  pub selected_run_id : Option String

abbrev pub storage_key : String
storage_key = "release-ops:dashboard:poll-run-history-page-size"

pub data Event : Type 0 where
  next_page previous_page : Event
  handle_page_size_change : Number → Event
  open_run : String → Event
  close_run : Event

abbrev pub changed_size : ℕ × Storage → State → State
changed_size (size, storage) s = record s { offset = 0; page_size = size; storage = storage }

-- The handlers; a subtraction on the natural numbers stops at 0 as `Math.max` does here.
unfoldable pub handle : Event → State → State
unfolding set_page_size
handle next_page s = record s { offset = s.offset + s.page_size }
handle previous_page s = record s { offset = s.offset - s.page_size }
handle (handle_page_size_change size) s =
    changed_size
      (set_page_size storage_key page_size_options max_page_size size (s.page_size, s.storage)) s
handle (open_run id) s = record s { selected_run_id = some id }
handle close_run s = record s { selected_run_id = none }

-- `hasPreviousPage` and `hasNextPage`, given the runs of the page.
abbrev pub has_previous_page : State → Bool
has_previous_page s = ltb 0 s.offset

abbrev pub has_next_page {ℓ} : {Run : Type ℓ} → State → List Run → Bool
has_next_page s runs = eqb (length runs) s.page_size

-- `pageStart` and `pageEnd`
abbrev pub page_start {ℓ} : {Run : Type ℓ} → State → List Run → ℕ
page_start s runs = if eqb (length runs) 0 then 0 else s.offset + 1

abbrev pub page_end {ℓ} : {Run : Type ℓ} → State → List Run → ℕ
page_end s runs = s.offset + length runs

-- A button that is disabled sends no event.
unfoldable pub click {ℓ} : {Run : Type ℓ} → Event → List Run → State → State
unfolding handle
click next_page runs s = if has_next_page s runs then handle next_page s else s
click previous_page runs s = if has_previous_page s then handle previous_page s else s
click event runs s = handle event s
