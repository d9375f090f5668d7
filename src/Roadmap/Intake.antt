-- ===== src/Roadmap/Intake.antt =====
-- scripts/audit-roadmap-intake.mjs, which says whether a roadmap may be imported, and the import behind it.
pub mod Empty
pub mod Laws
pub mod Guarded
mod Tests
use Prim.Native.String
use release_ops.Common.{
  ℕ, ltb, ◌+◌, String, ◌==◌, Bool, true, false, not, ◌&&◌, ◌||◌, List, [], ◌∷◌, ◌++◌, map, keep,
  any, length, is_empty, Option, none, some, if◌then◌else◌, ◌or_else◌,
}
use release_ops.Common.Text.{is_empty_text}
use release_ops.Account.{units}
use release_ops.Dashboard.PageSize.{to_decimal}
use release_ops.Roadmap.{Task, unique}
use release_ops.Roadmap.Marked.{roadmap_id_of}
use release_ops.Roadmap.Tracker.{Tracker}
use release_ops.Roadmap.Planning.{Settings, Ending, leaves}
use release_ops.Roadmap.Import.{Calls, main}

-- docs/roadmap.json, as far as it is read.
pub record Roadmap : Type 0 where
  pub format : Option String
  pub has_mapping : Bool
  pub tasks : List Task

abbrev pub domain_labels : List String
domain_labels = "backend" ∷ "web" ∷ "db" ∷ "config" ∷ "ci" ∷ "docs" ∷ []

abbrev concat : List String → String
concat [] = ""
concat (s ∷ ss) = String.◌++◌ s (concat ss)

abbrev pub is_listed : List String → String → Bool
is_listed texts text = any (λ t. t == text) texts

abbrev pub ids : List Task → List String
ids tasks = map (λ t. t.id) tasks

-- A loop that pushes a message for each element that is bad.
abbrev pub complaints : {A : Type 0} → (A → Bool) → (A → String) → List A → List String
complaints bad message xs = map message (keep bad xs)

-- One message with the number of tasks that are bad, if there are some.
abbrev pub counted : (Task → Bool) → String → List Task → List String
counted bad message tasks =
    let found = keep bad tasks in
    if is_empty found then [] else String.◌++◌ (to_decimal (length found)) message ∷ []

abbrev pub format_blockers : Roadmap → List String
format_blockers r =
    if (r.format or_else "undefined") == "phasical-intake-v2"
    then []
    else concat
        ("format must be phasical-intake-v2 (got " ∷ (r.format or_else "undefined") ∷ ")" ∷ [])
      ∷ []

abbrev pub mapping_blockers : Roadmap → List String
mapping_blockers r = if r.has_mapping then [] else "meta.phasical_mapping missing" ∷ []

abbrev pub has_no_parent : List String → Task → Bool
has_no_parent known leaf = elim leaf.parent [
  | none ↦ true
  | some parent ↦ is_empty_text parent || not (is_listed known parent)
]

abbrev pub parent_blockers : List Task → List String
parent_blockers tasks =
    complaints (has_no_parent (ids tasks))
      (λ l.
        concat (l.id ∷ ": missing or invalid parent (" ∷ (l.parent or_else "undefined") ∷ ")" ∷ []))
      (leaves tasks)

unfoldable pub dependency_blockers : List String → List Task → List String
dependency_blockers known [] = []
dependency_blockers known (t ∷ tasks) =
    complaints (λ d. not (is_listed known d))
      (λ d. concat (t.id ∷ ": invalid depends_on " ∷ d ∷ [])) t.depends_on
    ++ dependency_blockers known tasks

abbrev pub is_missing : Option String → Bool
is_missing none = true
is_missing (some id) = false

abbrev pub is_other : String → Option String → Bool
is_other own none = false
is_other own (some id) = not (id == own)

abbrev pub has_no_marker : Task → Bool
has_no_marker t = is_missing (roadmap_id_of t.description)

abbrev pub has_other_marker : Task → Bool
has_other_marker t = is_other t.id (roadmap_id_of t.description)

abbrev pub is_short : Task → Bool
is_short t = ltb (units t.description) 200

abbrev pub domain_blockers : List Task → List String
domain_blockers tasks =
    complaints (λ d. not (is_listed domain_labels d)) (String.◌++◌ "unknown domain: ")
      (unique (map (λ t. t.domain) tasks))

abbrev pub spec_blockers : Bool → List String
spec_blockers passed =
    if passed then [] else "audit-roadmap-spec.mjs failed — fix spec gaps first" ∷ []

-- `blockers`, in the order in which they are pushed. The audit of the spec is whether it passed.
unfoldable pub blockers : Roadmap → (spec_passed : Bool) → List String
unfolding dependency_blockers units unique
blockers r spec_passed =
    format_blockers r
    ++ (mapping_blockers r
        ++ (parent_blockers r.tasks
            ++ (dependency_blockers (ids r.tasks) r.tasks
                ++ (counted has_no_marker " tasks missing **Roadmap ID:** marker (idempotency)"
                      r.tasks
                    ++ (counted has_other_marker " tasks have Roadmap ID mismatch vs task.id"
                          r.tasks
                        ++ (counted is_short " tasks with description < 200 chars" r.tasks
                            ++ (domain_blockers r.tasks ++ spec_blockers spec_passed)))))))

abbrev pub has_few_criteria : Task → Bool
has_few_criteria t = ltb (length (t.acceptance_criteria or_else [])) 5

abbrev pub has_long_title : Task → Bool
has_long_title t = ltb 80 (units t.title)

unfoldable pub dependency_count : List Task → ℕ
dependency_count [] = 0
dependency_count (t ∷ tasks) = length t.depends_on + dependency_count tasks

unfoldable pub warnings : Roadmap → List String
unfolding units dependency_count
warnings r =
    counted has_few_criteria " leaves with < 5 acceptance_criteria" (leaves r.tasks)
    ++ (counted has_long_title " titles > 80 chars" r.tasks
        ++ (String.◌++◌ (to_decimal (dependency_count r.tasks))
              " depends_on edges use roadmap IDs — import script must patch to GitHub #N after sync"
            ∷ []))

-- `process.exit(blockers.length ? 1 : 0)`
abbrev pub exit_code : Roadmap → Bool → ℕ
exit_code r spec_passed = if is_empty (blockers r spec_passed) then 0 else 1

-- The import, which runs this audit first.
abbrev pub audited_import : (T : Tracker) → Settings → Roadmap → Bool → Calls T Ending
audited_import T settings r spec_passed =
    main T settings (is_empty (blockers r spec_passed)) r.tasks
