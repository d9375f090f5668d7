-- ===== src/TicketProjects/CreateConfig.antt =====
-- apps/web/lib/ticket-projects/create-config.ts. `Number` on a text makes a floating point number,
-- which is a parameter here: `parse` gives the text that the finite result prints as, or `none`.
pub mod Laws
use release_ops.Common.{
  String, ◌==◌, Bool, true, false, List, [], ◌∷◌, Option, none, some, if◌then◌else◌, ◌or_else◌,
}
use release_ops.Common.Text.{trim, is_empty_text}
use release_ops.Common.Json.{
  Value, null, bool, num, str, arr, obj, Object, lookup, insert, spread, to_text,
}

unfoldable pub default_create_config : String → Object
default_create_config kind =
    if kind == "kaneo"
    then ("workspaceId", str "") ∷ ("status", str "ready") ∷ ("priority", str "medium") ∷ []
    else if kind == "jira"
    then ("issueType", str "Task")
      ∷ ("priority", str "Medium")
      ∷ ("initialStatus", str "To Do")
      ∷ []
    else if kind == "linear"
    then ("priority", str "2") ∷ ("stateId", str "") ∷ []
    else []

unfoldable pub create_config_from_record : String → Object → Object
create_config_from_record kind r = spread (default_create_config kind) r

-- `String(v ?? "")`
abbrev pub text_or_empty : Option Value → String
text_or_empty none = ""
text_or_empty (some null) = ""
text_or_empty (some v) = to_text v

-- `a || b` on texts.
abbrev pub text_or : String → String → String
text_or a b = if is_empty_text a then b else a

module _ (parse : String → Option String) where
  -- `Number(v)`, if it is finite.
  abbrev pub finite_number : Option Value → Option String
  finite_number none = none
  finite_number (some null) = some "0"
  finite_number (some (bool true)) = some "1"
  finite_number (some (bool false)) = some "0"
  finite_number (some (num d)) = some d
  finite_number (some v) = parse (to_text v)

  unfoldable pub serialize_create_config : String → Object → String → Object
  unfolding create_config_from_record
  serialize_create_config kind values workspace_id =
      if kind == "kaneo"
      then insert "workspaceId"
          (str (text_or (trim workspace_id) (trim (text_or_empty (lookup "workspaceId" values)))))
          (create_config_from_record kind values)
      else if kind == "linear"
      then ("priority", num (finite_number (lookup "priority" values) or_else "2"))
        ∷ ("stateId", str (text_or_empty (lookup "stateId" values)))
        ∷ []
      else create_config_from_record kind values
