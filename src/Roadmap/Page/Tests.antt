-- ===== src/Roadmap/Page/Tests.antt =====
-- The page of a small roadmap.
use release_ops.Common.{◌≡◌, refl, List, [], ◌∷◌, some, keep}
use release_ops.Common.Text.{Chars}
use release_ops.Roadmap.{Task}
use release_ops.Roadmap.Planning.{leaves}
use release_ops.Roadmap.Import.Memory.{epic_task, leaf_task}
use release_ops.Roadmap.Page.{esc, deps, same_key, children, sections}
use release_ops.Roadmap.Page.Laws.{children_lem, esc-IsInert, escaped, IsInert}

abbrev second_leaf : Task
second_leaf = record leaf_task { id = "E01-02"; depends_on = "E01-01" ∷ [] }

abbrev stray_leaf : Task
stray_leaf = record leaf_task { id = "E02-01"; parent = some "E02" }

abbrev page_tasks : List Task
page_tasks = leaf_task ∷ stray_leaf ∷ epic_task ∷ second_leaf ∷ []

-- A leaf of an epic that is missing stands in no table.
page_sections : sections page_tasks ≡ (epic_task, leaf_task ∷ second_leaf ∷ []) ∷ []
unfolding children
page_sections = refl

dependencies : deps second_leaf ≡ "E01-01"
unfolding release_ops.Common.Text.join
dependencies = refl

escaped_text : esc "<a href=\"x\">&lt;" ≡ "&lt;a href=&quot;x&quot;&gt;&amp;lt;"
unfolding esc
escaped_text = refl

children_lem_example :
    children page_tasks epic_task
    ≡ keep (λ l. same_key l.parent (some epic_task.id)) (leaves page_tasks)
children_lem_example = children_lem page_tasks epic_task

esc-IsInert_example : (esc "<b>&\"" ≡ escaped "<b>&\"") × Chars IsInert (esc "<b>&\"")
esc-IsInert_example = esc-IsInert "<b>&\""
