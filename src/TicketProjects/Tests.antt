-- ===== src/TicketProjects/Tests.antt =====
-- Examples for apps/web/lib/ticket-projects.
use release_ops.Common.{String, ◌≡◌, refl, [], ◌∷◌, Option, none}
use release_ops.Common.Text.{trim}
use release_ops.Common.Json.{str, Object, lookup, IsKeyed}
use release_ops.TicketProjects.StatusMapping.{StatusMappingValues}
use release_ops.TicketProjects.StatusMapping.RoundTrip.{IsStatus}
use release_ops.TicketProjects.CreateConfig.{create_config_from_record, serialize_create_config}
use release_ops.TicketProjects.CreateConfig.Laws.{save_again}

in_review-IsStatus : IsStatus "In review"
unfolding trim
in_review-IsStatus = record {
  trimmed = refl;
  nonempty = refl;
  plain = (refl, (refl, (refl, (refl, (refl, (refl, (refl, (refl, (refl, tt)))))))));
}

done-IsStatus : IsStatus "done"
unfolding trim
done-IsStatus = record {
  trimmed = refl;
  nonempty = refl;
  plain = (refl, (refl, (refl, (refl, tt))));
}

abbrev kaneo_statuses : StatusMappingValues
kaneo_statuses = record {
  open_statuses = "ready" ∷ "in-progress" ∷ [];
  done = "done" ∷ [];
  cancelled = "archived" ∷ [];
  superseded = "archived";
}

abbrev no_number : String → Option String
no_number s = none

abbrev kaneo_values : Object
kaneo_values = ("workspaceId", str " w1 ") ∷ ("status", str "planned") ∷ []

kaneo_values-IsKeyed : IsKeyed kaneo_values
unfolding lookup
kaneo_values-IsKeyed = (refl, (refl, tt))

save_again_example :
    lookup "workspaceId" (
      serialize_create_config no_number "kaneo"
        (create_config_from_record "kaneo"
          (serialize_create_config no_number "kaneo" kaneo_values ""))
        "")
    ≡ lookup "workspaceId" (serialize_create_config no_number "kaneo" kaneo_values "")
save_again_example = save_again no_number "kaneo" kaneo_values "" "workspaceId" kaneo_values-IsKeyed
