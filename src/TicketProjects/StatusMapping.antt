-- ===== src/TicketProjects/StatusMapping.antt =====
-- apps/web/lib/ticket-projects/status-mapping.ts
pub mod RoundTrip
use release_ops.Common.{String, List, [], ◌∷◌, map, not, keep}
use release_ops.Common.Text.{trim, split, join, is_empty_text}
use release_ops.Common.Json.{Object, lookup, string_list, string_or, str, arr, of_strings}

pub record StatusMappingValues : Type 0 where
  pub open_statuses : List String
  pub done : List String
  pub cancelled : List String
  pub superseded : String

unfoldable pub default_status_mapping : StatusMappingValues
default_status_mapping = record { open_statuses = []; done = []; cancelled = []; superseded = "" }

unfoldable pub parse_status_list : String → List String
parse_status_list value = keep (λ item. not (is_empty_text item)) (map trim (split b',' value))

unfoldable pub format_status_list : List String → String
format_status_list values = join ", " values

unfoldable pub status_mapping_from_record : Object → StatusMappingValues
status_mapping_from_record r = record {
  open_statuses = string_list (lookup "open" r);
  done = string_list (lookup "done" r);
  cancelled = string_list (lookup "cancelled" r);
  superseded = string_or "" (lookup "superseded" r);
}

unfoldable pub status_mapping_to_record : StatusMappingValues → Object
status_mapping_to_record v =
    ("open", arr (of_strings v.open_statuses))
    ∷ ("done", arr (of_strings v.done))
    ∷ ("cancelled", arr (of_strings v.cancelled))
    ∷ ("superseded", str v.superseded)
    ∷ []
