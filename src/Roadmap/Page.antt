-- ===== src/Roadmap/Page.antt =====
-- scripts/generate-roadmap.mjs: the counts, the tables of the page with the leaves of each epic, and the
-- warnings. The texts of the page are escaped by `esc`.
pub mod Laws
mod Tests
use release_ops.Common.{
  ℕ, eqb, ltb, ◌||◌, String, code, ◌==◌, Bool, true, false, List, [], ◌∷◌, ◌++◌, map, keep, any,
  length, Option, none, some, if◌then◌else◌, ◌or_else◌,
}
use Prim.Native.String
use release_ops.Common.Text.{is_empty_text, join, onto}
use release_ops.Account.{units}
use release_ops.Roadmap.{Task}
use release_ops.Roadmap.Planning.{epics, leaves}

-- `s.replace(/c/g, new)` for one character.
unfoldable pub replace_all : ℕ → String → String → String
replace_all old new String.[] = String.[]
replace_all old new (String.◌∷◌ c s) =
    let rest = replace_all old new s in
    if eqb (code c) old then onto new rest else String.◌∷◌ c rest

unfoldable pub esc : String → String
unfolding replace_all
esc s =
    replace_all b'"' "&quot;"
      (replace_all b'>' "&gt;" (replace_all b'<' "&lt;" (replace_all b'&' "&amp;" s)))

abbrev joined_or_dash : List String → String
joined_or_dash [] = "—"
joined_or_dash (t ∷ ts) = join ", " (t ∷ ts)

abbrev pub deps : Task → String
deps t = joined_or_dash t.depends_on

abbrev pub doc_ref : Task → String
doc_ref t = joined_or_dash t.doc_ref

-- `leavesByParent`, a map that keeps its keys in the order in which they came.
abbrev pub Groups : Type 0
Groups = List (Option String × List Task)

abbrev pub same_key : Option String → Option String → Bool
same_key none none = true
same_key none (some k) = false
same_key (some j) none = false
same_key (some j) (some k) = j == k

abbrev pub has_group : Option String → Groups → Bool
has_group key groups = any (λ g. same_key g.0 key) groups

unfoldable pub get_group : Option String → Groups → Option (List Task)
get_group key [] = none
get_group key ((k, ts) ∷ groups) =
    let rest = get_group key groups in if same_key k key then some ts else rest

-- `get(key).push(t)`, for a key that is there.
unfoldable pub push_to : Option String → Task → Groups → Groups
push_to key t [] = []
push_to key t ((k, ts) ∷ groups) =
    let rest = push_to key t groups in
    if same_key k key then (k, ts ++ (t ∷ [])) ∷ groups else (k, ts) ∷ rest

unfoldable pub add_leaf : Groups → Task → Groups
unfolding push_to
add_leaf groups t =
    push_to t.parent t
      (if has_group t.parent groups then groups else groups ++ ((t.parent, []) ∷ []))

unfoldable pub add_leaves : Groups → List Task → Groups
unfolding add_leaf
add_leaves groups [] = groups
add_leaves groups (t ∷ ts) = add_leaves (add_leaf groups t) ts

abbrev pub leaves_by_parent : List Task → Groups
leaves_by_parent tasks = add_leaves [] (leaves tasks)

-- `children` of the section of an epic.
unfoldable pub children : List Task → Task → List Task
unfolding get_group add_leaves
children tasks epic = get_group (some epic.id) (leaves_by_parent tasks) or_else []

-- The epics with the leaves in their tables, in the order of the sections.
abbrev pub sections : List Task → List (Task × List Task)
sections tasks = map (λ e. (e, children tasks e)) (epics tasks)

-- `meta.epic_count` and `meta.leaf_count`
abbrev pub epic_count : List Task → ℕ
epic_count tasks = length (epics tasks)

abbrev pub leaf_count : List Task → ℕ
leaf_count tasks = length (leaves tasks)

-- The tasks that the quality gate warns about.
abbrev pub empty_desc : List Task → List Task
empty_desc tasks = keep (λ t. is_empty_text t.description || ltb (units t.description) 200) tasks

abbrev pub few_ac : List Task → List Task
few_ac tasks = keep (λ t. ltb (length (t.acceptance_criteria or_else [])) 5) (leaves tasks)
