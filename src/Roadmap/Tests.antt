-- ===== src/Roadmap/Tests.antt =====
-- Examples for the markers of the roadmap.
use Prim.Native.String.{◌++◌}
use release_ops.Common.{◌≡◌, refl, true, [], ◌∷◌, none, some}
use release_ops.Common.Text.{includes, join}
use release_ops.Roadmap.{
  Options, epic, leaf, marker, with_roadmap_id, has_marker, search_by_roadmap_id, describe, unique,
}
use release_ops.Roadmap.Markers.{imported, description-marked, search_by_roadmap_id-longer}

abbrev options : Options
options = record {
  description = none;
  context = some "Repositories";
  specs = record { href = "specs.html#api"; label = "API"; note = none } ∷ [];
  stack = [];
  schema = [];
  implementation = "A handler" ∷ [];
  acceptance = "It answers" ∷ [];
  files = "internal/api/repos.go" ∷ [];
  tests = [];
  out_of_scope = [];
  related_tasks = [];
  priority = none;
  depends_on = [];
  lane = none;
}

described :
    describe (record options { specs = []; files = [] })
    ≡ "## Context\n\nRepositories\n\n## Implementation notes\n\n- A handler\n\n## Acceptance criteria\n\n- [ ] It answers"
unfolding describe join
described = refl

first_texts : unique ("a" ∷ "b" ∷ "a" ∷ []) ≡ "a" ∷ "b" ∷ []
unfolding unique
first_texts = refl

description-marked_example :
    (includes (epic "E01" "Repositories" "core" options).description (marker "E01") ≡ true)
    × (includes (leaf "E01" "E00" "Repositories" "core" options).description (marker "E01") ≡ true)
    × (with_roadmap_id "E01" (epic "E01" "Repositories" "core" options).description
        ≡ (epic "E01" "Repositories" "core" options).description)
    × (with_roadmap_id "E01" (leaf "E01" "E00" "Repositories" "core" options).description
        ≡ (leaf "E01" "E00" "Repositories" "core" options).description)
description-marked_example = description-marked "E01" "E00" "Repositories" "core" options

search_by_roadmap_id-longer_example :
    let hit = imported "t7" ("E01" ++ "-02") "E01" "List" "core" options in
    (has_marker "E01" hit ≡ true) × (search_by_roadmap_id "E01" (hit ∷ []) ≡ some hit)
search_by_roadmap_id-longer_example =
    search_by_roadmap_id-longer "E01" "-02" "t7" "E01" "List" "core" options []
