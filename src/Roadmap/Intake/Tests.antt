-- ===== src/Roadmap/Intake/Tests.antt =====
-- A roadmap that the audit lets through, and its import.
use release_ops.Common.{◌≡◌, ◌≤◌, ◌↔◌, refl, true, [], ◌∷◌, some}
use release_ops.Roadmap.{Task}
use release_ops.Roadmap.Marked.{roadmap_id_of, match_here}
use release_ops.Roadmap.Planning.{create_order}
use release_ops.Roadmap.Import.Calm.{occ}
use release_ops.Roadmap.Import.Memory.{
  memory, memory-IsLawful, applying, applying-IsPlain, empty, empty_once, epic_task, leaf_task,
  ids_apart,
}
use release_ops.Roadmap.Import.Unique.{AreDistinct}
use release_ops.Roadmap.Intake.{Roadmap, blockers, audited_import}
use release_ops.Roadmap.Intake.Laws.{IsReady, blockers-IsReady}
use release_ops.Roadmap.Intake.Guarded.{audited_import_once}

abbrev long_epic : Task
long_epic = record epic_task {
  description =
      "Watch the repositories of the team for releases, and keep what was found: the tag, the date and the page of the release, so that later steps can open a ticket for it and nothing is announced twice, even if a run fails half-way.\n\n---\n\n**Roadmap ID:** E01";
}

abbrev long_leaf : Task
long_leaf = record leaf_task {
  description =
      "List the repositories that are watched, with the date of the last run and the result of that run, and show for each of them the latest release that was found, with a link to its page and to the ticket that was opened for it.\n\n---\n\n**Roadmap ID:** E01-01";
}

abbrev long_roadmap : Roadmap
long_roadmap = record {
  format = some "phasical-intake-v2";
  has_mapping = true;
  tasks = long_leaf ∷ long_epic ∷ [];
}

-- The audit lets it through.
no_blocker : blockers long_roadmap true ≡ []
unfolding blockers roadmap_id_of match_here
no_blocker = refl

blockers-IsReady_example : (blockers long_roadmap true ≡ []) ↔ IsReady long_roadmap true
blockers-IsReady_example = blockers-IsReady long_roadmap true

long_roadmap-AreDistinct : AreDistinct (create_order long_roadmap.tasks)
long_roadmap-AreDistinct = ((ids_apart, tt), (tt, tt))

audited_import_once_example :
    occ memory memory-IsLawful "E01" (audited_import memory applying long_roadmap true empty).1 ≤ 1
audited_import_once_example =
    audited_import_once memory memory-IsLawful applying applying-IsPlain long_roadmap true empty
      long_roadmap-AreDistinct empty_once "E01"
