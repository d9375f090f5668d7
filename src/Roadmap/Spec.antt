-- ===== src/Roadmap/Spec.antt =====
-- scripts/audit-roadmap-spec.mjs: which leaves cover a requirement, the drift between endpoints and
-- their pages, and references to tasks that are missing.
pub mod Laws
mod Tests
use Prim.Native.String.{[], ◌∷◌}
use release_ops.Common.{
  String, code, eqb, ◌==◌, Bool, true, false, not, ◌&&◌, ◌||◌, List, [], ◌∷◌, ◌++◌, map, keep, any,
  find, is_empty, Option, none, some, if◌then◌else◌,
}
use release_ops.Roadmap.{Task, unique}
use release_ops.Roadmap.Marked.{is_digit}

-- An element of REQUIREMENTS; `matches` is its `match`.
pub record Requirement : Type 0 where
  pub id : String
  pub area : String
  pub requirement : String
  pub matches : Task → Bool

pub record Coverage : Type 0 where
  pub of : Requirement
  pub hits : List String
  pub backend : List String
  pub web : List String

pub record Pair : Type 0 where
  pub api : String
  pub ui : String
  pub note : String

abbrev task_ids : List Task → List String
task_ids tasks = map (λ t. t.id) tasks

abbrev pub cover : List Task → Requirement → Coverage
cover leaves req =
    let hits = keep req.matches leaves in
    record {
      of = req;
      hits = task_ids hits;
      backend = task_ids (keep (λ t. t.domain == "backend" || t.domain == "db") hits);
      web = task_ids (keep (λ t. t.domain == "web") hits);
    }

abbrev pub coverage : List Task → List Requirement → List Coverage
coverage leaves reqs = map (cover leaves) reqs

abbrev pub gaps : List Task → List Requirement → List Requirement
gaps leaves reqs = keep (λ req. is_empty (keep req.matches leaves)) reqs

-- API_UI_PAIRS
abbrev pub api_ui_pairs : List Pair
api_ui_pairs =
    record {
      api = "API-POLL-RUNS";
      ui = "POLL-RUNS-UI";
      note = "GET poll/runs needs dashboard/history UI";
    }
    ∷ record {
      api = "API-POLL-RUN-ID";
      ui = "POLL-RUNS-UI";
      note = "GET poll/runs/{id} needs run detail UI";
    }
    ∷ record {
      api = "API-AUTH-LOGOUT";
      ui = "LOGOUT-UI";
      note = "logout endpoint needs shell logout control";
    }
    ∷ []

-- `?.hits`, with no hits where there is no requirement.
abbrev pub hits_or_none : Option Coverage → List String
hits_or_none none = []
hits_or_none (some c) = c.hits

abbrev pub hits_of : String → List Coverage → List String
hits_of id covered = hits_or_none (find (λ c. c.of.id == id) covered)

-- The pair is pushed: its endpoint has tasks and its page has none.
abbrev pub drifts : List Coverage → Pair → Bool
drifts covered pair =
    not (is_empty (hits_of pair.api covered)) && is_empty (hits_of pair.ui covered)

pub record Drift : Type 0 where
  pub pair : Pair
  pub api_tasks : List String

abbrev pub drift : List Coverage → List Pair → List Drift
drift covered pairs =
    map (λ pair. record { pair = pair; api_tasks = hits_of pair.api covered })
      (keep (drifts covered) pairs)

-- A task of docs/roadmap.json, which may have a list that the registry does not write.
pub record Entry : Type 0 where
  pub task : Task
  pub related_tasks : List String

pub data Place : Type 0 where
  in_lists in_description : Place

pub record BrokenRef : Type 0 where
  pub source : String
  pub ref : String
  pub place : Place

-- `P\d{2}-\d{2}` at the beginning.
unfoldable pub ref_here : String → List String
ref_here (a ∷ b ∷ c ∷ d ∷ e ∷ f ∷ rest) =
    if eqb (code a) b'P'
      && is_digit b
      && is_digit c
      && eqb (code d) b'-'
      && is_digit e
      && is_digit f
    then (a ∷ b ∷ c ∷ d ∷ e ∷ f ∷ []) ∷ []
    else []
ref_here _ = []

-- `description.match(/P\d{2}-\d{2}/g) ?? []`. Two matches have no character in common, since a match
-- has a P only at its beginning.
unfoldable pub desc_refs : String → List String
unfolding ref_here
desc_refs [] = []
desc_refs (c ∷ s) = ref_here (c ∷ s) ++ desc_refs s

abbrev pub is_known : List Entry → String → Bool
is_known entries ref = any (λ e. e.task.id == ref) entries

abbrev pub refs_of : Entry → List String
refs_of e = e.task.depends_on ++ e.related_tasks

abbrev pub list_refs : List Entry → Entry → List BrokenRef
list_refs known e =
    map (λ ref. record { source = e.task.id; ref = ref; place = in_lists })
      (keep (λ ref. not (is_known known ref)) (refs_of e))

abbrev pub broken_desc : List Entry → Entry → String → Bool
broken_desc known e ref = not (ref == e.task.id) && not (is_known known ref)

abbrev pub description_refs : List Entry → Entry → List BrokenRef
description_refs known e =
    map (λ ref. record { source = e.task.id; ref = ref; place = in_description })
      (keep (broken_desc known e) (unique (desc_refs e.task.description)))

-- The loop over the tasks, with the identifiers of all tasks.
unfoldable pub broken_from : List Entry → List Entry → List BrokenRef
unfolding desc_refs unique
broken_from known [] = []
broken_from known (e ∷ es) = list_refs known e ++ (description_refs known e ++ broken_from known es)

abbrev pub broken_refs : List Entry → List BrokenRef
broken_refs entries = broken_from entries entries
