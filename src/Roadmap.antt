-- ===== src/Roadmap.antt =====
-- scripts/roadmap/spec-links.mjs, scripts/roadmap/registry.mjs and the search of
-- scripts/import-roadmap-phasical.mjs for a task that has been imported before.
pub mod Markers
pub mod Marked
pub mod Tracker
pub mod Planning
pub mod Import
pub mod Intake
pub mod Page
pub mod Spec
mod Tests
use Prim.Native.String.{◌++◌}
use release_ops.Common.{
  String, ◌==◌, Bool, true, false, not, List, [], ◌∷◌, map, keep, find, Option, none, some,
  if◌then◌else◌, ◌or_else◌,
}
use release_ops.Common.Text.{is_empty_text, includes, join}

pub record DocRef : Type 0 where
  pub href : String
  pub label : String
  pub note : Option String

-- The options of `epic` and `leaf`. A list that is left out is an empty one for both.
pub record Options : Type 0 where
  pub description : Option String
  pub context : Option String
  pub specs : List DocRef
  pub stack : List DocRef
  pub schema : List DocRef
  pub implementation : List String
  pub acceptance : List String
  pub files : List String
  pub tests : List String
  pub out_of_scope : List String
  pub related_tasks : List String
  pub priority : Option String
  pub depends_on : List String
  pub lane : Option String

pub data TaskType : Type 0 where
  epic_type leaf_type : TaskType

-- Fields that only a leaf has are `none` for an epic.
pub record Task : Type 0 where
  pub id : String
  pub type : TaskType
  pub parent : Option String
  pub title : String
  pub domain : String
  pub priority : String
  pub depends_on : List String
  pub doc_ref : List String
  pub description : String
  pub acceptance_criteria : Option (List String)
  pub files : Option (List String)
  pub tests : Option (List String)
  pub lane : String

-- `r.note ? … : ""`
abbrev pub note_text : Option String → String
note_text none = ""
note_text (some note) = if is_empty_text note then "" else " — " ++ note

abbrev pub spec_ref : DocRef → String
spec_ref r = "- [" ++ (r.label ++ ("](" ++ (r.href ++ (")" ++ note_text r.note))))

unfoldable pub spec_refs : List DocRef → String
spec_refs refs = join "\n" (map spec_ref refs)

-- A heading with its text, in front of the parts that follow.
abbrev pub with_refs : String → List DocRef → List String → List String
with_refs heading [] rest = rest
with_refs heading (r ∷ rs) rest = ("## " ++ (heading ++ ("\n\n" ++ spec_refs (r ∷ rs)))) ∷ rest

abbrev pub with_lines : String → (String → String) → List String → List String → List String
with_lines heading line [] rest = rest
with_lines heading line (t ∷ ts) rest =
    ("## " ++ (heading ++ ("\n\n" ++ join "\n" (map line (t ∷ ts))))) ∷ rest

abbrev pub with_context : Option String → List String → List String
with_context none rest = rest
with_context (some context) rest =
    if is_empty_text context then rest else ("## Context\n\n" ++ context) ∷ rest

abbrev pub item : String → String
item t = "- " ++ t

abbrev pub code_item : String → String
code_item t = "- `" ++ (t ++ "`")

abbrev pub check_item : String → String
check_item t = "- [ ] " ++ t

unfoldable pub describe : Options → String
unfolding spec_refs
describe o = join "\n\n" (
    with_context o.context (
      with_refs "Spec references" o.specs (
        with_refs "Stack references" o.stack (
          with_refs "Schema references" o.schema (
            with_lines "Implementation notes" item o.implementation (
              with_lines "Files" code_item o.files (
                with_lines "Acceptance criteria" check_item o.acceptance (
                  with_lines "Tests" code_item o.tests (
                    with_lines "Out of scope" item o.out_of_scope
                      (with_lines "Related roadmap tasks" code_item o.related_tasks []))))))))))

abbrev pub marker : String → String
marker id = "**Roadmap ID:** " ++ id

unfoldable pub with_roadmap_id : String → String → String
with_roadmap_id id description =
    if includes description (marker id)
    then description
    else description ++ ("\n\n---\n\n" ++ marker id)

-- What an epic describes: it has neither files nor tests, and is not tied to other tasks.
abbrev pub epic_options : Options → Options
epic_options o = record o { files = []; tests = []; out_of_scope = []; related_tasks = [] }

-- `[...new Set(texts)]` keeps the first of equal texts.
unfoldable pub unique : List String → List String
unique [] = []
unique (t ∷ ts) = t ∷ keep (λ s. not (s == t)) (unique ts)

abbrev pub hrefs : List DocRef → List String → List String
hrefs [] rest = rest
hrefs (r ∷ rs) rest = r.href ∷ hrefs rs rest

abbrev pub doc_refs : Options → List String
doc_refs o = unique (hrefs o.specs (hrefs o.stack (hrefs o.schema [])))

unfoldable pub epic : String → String → String → Options → Task
unfolding describe with_roadmap_id unique
epic id title domain o = record {
  id = id;
  type = epic_type;
  parent = none;
  title = title;
  domain = domain;
  priority = o.priority or_else "high";
  depends_on = o.depends_on;
  doc_ref = doc_refs o;
  description = with_roadmap_id id (o.description or_else describe (epic_options o));
  acceptance_criteria = none;
  files = none;
  tests = none;
  lane = "S";
}

unfoldable pub leaf : String → String → String → String → Options → Task
unfolding describe with_roadmap_id unique
leaf id parent title domain o = record {
  id = id;
  type = leaf_type;
  parent = some parent;
  title = title;
  domain = domain;
  priority = o.priority or_else "medium";
  depends_on = o.depends_on;
  doc_ref = doc_refs o;
  description = with_roadmap_id id (describe o);
  acceptance_criteria = some o.acceptance;
  files = some o.files;
  tests = some o.tests;
  lane = o.lane or_else "S";
}

-- `externalLinks` of a task of the tracker.
pub record Link : Type 0 where
  pub resource_type : String
  pub external_id : String

-- A task as the tracker returns it, in a listing or as a result of its search.
pub record Hit : Type 0 where
  pub id : String
  pub description : Option String
  pub links : List Link

abbrev pub has_marker : String → Hit → Bool
has_marker id hit = elim hit.description [ none ↦ false | some text ↦ includes text (marker id) ]

abbrev pub first : List Hit → Option Hit
first [] = none
first (hit ∷ hits) = some hit

abbrev pub or_first : Option Hit → List Hit → Option Hit
or_first (some hit) results = some hit
or_first none results = first results

-- The end of `searchByRoadmapId`, on the results that came.
unfoldable pub search_by_roadmap_id : String → List Hit → Option Hit
search_by_roadmap_id id results = or_first (find (has_marker id) results) results
