-- ===== src/Roadmap/Planning.antt =====
-- The parts of `main` of scripts/import-roadmap-phasical.mjs that make no call: the order, the maps and
-- the plan.
use Prim.Native.String
use release_ops.Common.{
  ℕ, String, ◌==◌, Bool, true, false, not, List, [], ◌∷◌, ◌++◌, map, keep, find, Option, none, some,
  if◌then◌else◌,
}
use release_ops.Common.Json.{Entries, lookup, insert}
use release_ops.Roadmap.{Task, TaskType, epic_type, leaf_type, Link, Hit}
use release_ops.Roadmap.Tracker.{Label, marked_id}

-- What the run is given: the mode, the credentials, how often GitHub's issue is looked for within
-- the time there is, and `Number(text)` as it prints, for a text that is a number other than 0.
pub record Settings : Type 0 where
  pub apply : Bool
  pub has_api_key : Bool
  pub user_id : Option String
  pub polls : ℕ
  pub number : String → Option String

pub record Planned : Type 0 where
  pub id : String
  pub type : TaskType
  pub title : String
  pub domain : String

pub data Relation : Type 0 where
  subtask : (parent child : String) → Relation
  blocks : (blocker blocked : String) → Relation

-- The maps and the lists that the loop over the tasks fills. The number of an issue that is no number
-- is `none`.
pub record Progress : Type 0 where
  pub phasical_by_roadmap_id : Entries String
  pub github_by_roadmap_id : Entries (Option String)
  pub label_by_name : Entries String
  pub create : List Planned
  pub skip : List String

pub record Plan : Type 0 where
  pub create : List Planned
  pub skip : List String
  pub relations : List Relation

-- `process.exit(1)`, or the plan that is printed at the end.
pub data Ending : Type 0 where
  refused : Ending
  planned : Plan → Ending

abbrev pub is_leaf : Task → Bool
is_leaf task = elim task.type [ epic_type ↦ false | leaf_type ↦ true ]

abbrev pub epics : List Task → List Task
epics tasks = keep (λ t. not (is_leaf t)) tasks

abbrev pub leaves : List Task → List Task
leaves tasks = keep is_leaf tasks

-- `createOrder`
abbrev pub create_order : List Task → List Task
create_order tasks = epics tasks ++ leaves tasks

abbrev pub remember : Option String → Hit → Entries Hit → Entries Hit
remember none hit known = known
remember (some id) hit known = insert id hit known

-- `existingByRoadmapId`: a later task with the same marker takes the place of an earlier one.
unfoldable pub existing_by_roadmap_id : Entries Hit → List Hit → Entries Hit
existing_by_roadmap_id known [] = known
existing_by_roadmap_id known (hit ∷ hits) =
    existing_by_roadmap_id (remember (marked_id hit) hit known) hits

-- An identifier of the tracker that counts as one in a test.
abbrev pub truthy : Option String → Option String
truthy none = none
truthy (some id) = if id == "" then none else some id

-- `loadLabelMap`, on the labels that came.
unfoldable pub label_map : Entries String → List Label → Entries String
label_map known [] = known
label_map known (label ∷ labels) =
    label_map
      (elim (truthy label.task_id) [
        | some task ↦ known
        | none ↦ if label.name == "" then known else insert label.name label.id known
      ])
      labels

abbrev pub github_issue_from_task : Hit → Option Link
github_issue_from_task task = find (λ l. l.resource_type == "issue") task.links

abbrev pub issues_url : String
issues_url = "https://github.com/mdg-labs/release-ops/issues/"

-- The parent's line of a leaf whose parent has an issue.
abbrev pub with_parent : Option String → String → String
with_parent none description = description
with_parent (some number) description =
    String.◌++◌ "**Parent:** "
      (String.◌++◌ issues_url (String.◌++◌ number (String.◌++◌ "\n\n" description)))

abbrev pub flat : Option (Option String) → Option String
flat none = none
flat (some number) = number

-- The number of the parent's issue, for a leaf.
abbrev pub parent_issue : Task → Entries (Option String) → Option String
parent_issue task known =
    if is_leaf task
    then elim task.parent [ none ↦ none | some parent ↦ flat (lookup parent known) ]
    else none

-- `buildDescription`
unfoldable pub build_description : Task → Entries (Option String) → String
build_description task known = with_parent (parent_issue task known) task.description

abbrev pub to_planned : Task → Planned
to_planned task = record {
  id = task.id;
  type = task.type;
  title = task.title;
  domain = task.domain;
}

abbrev pub plan_create : Task → Progress → Progress
plan_create task p = record p { create = p.create ++ (to_planned task ∷ []) }

abbrev pub note_issue :
    Settings → String → Option Link → Entries (Option String) → Entries (Option String)
note_issue settings id none known = known
note_issue settings id (some link) known = insert id (settings.number link.external_id) known

-- What `waitForGithubIssue` returns, as far as it counts.
abbrev pub issue_number : Settings → Option Link → Option String
issue_number settings none = none
issue_number settings (some link) = settings.number link.external_id

abbrev pub note_created : String → Option String → Entries (Option String) → Entries (Option String)
note_created id none known = known
note_created id (some number) known = insert id (some number) known

-- A task that is there already.
abbrev pub plan_skip : Settings → Task → Hit → Progress → Progress
plan_skip settings task hit p = record p {
  skip = p.skip ++ (task.id ∷ []);
  phasical_by_roadmap_id = insert task.id hit.id p.phasical_by_roadmap_id;
  github_by_roadmap_id =
      note_issue settings task.id (github_issue_from_task hit) p.github_by_roadmap_id;
}

abbrev pub relations_of : Task → List Relation
relations_of leaf =
    elim leaf.parent [
      | none ↦ []
      | some parent ↦ if parent == "" then [] else subtask parent leaf.id ∷ []
    ]
    ++ map (λ blocker. blocks blocker leaf.id) leaf.depends_on

unfoldable pub relations : List Task → List Relation
relations [] = []
relations (leaf ∷ rest) = relations_of leaf ++ relations rest

abbrev pub to_plan : List Task → Progress → Plan
to_plan tasks p = record { create = p.create; skip = p.skip; relations = relations (leaves tasks) }

abbrev pub no_progress : Entries String → Progress
no_progress labels = record {
  phasical_by_roadmap_id = [];
  github_by_roadmap_id = [];
  label_by_name = labels;
  create = [];
  skip = [];
}
