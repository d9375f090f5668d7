-- ===== src/Roadmap/Import.antt =====
-- `main` of scripts/import-roadmap-phasical.mjs, on a tracker.
pub mod Calm
pub mod Existing
pub mod Plain
pub mod Unique
pub mod Once
pub mod Opening
pub mod Grows
pub mod Again
pub mod Pinned
pub mod Ready
pub mod Dry
pub mod Memory
mod Tests
use Prim.Native.String
use release_ops.Common.{
  ℕ, zero, suc, String, Bool, not, List, [], ◌∷◌, ◌++◌, Option, none, some, is_some, if◌then◌else◌,
}
use release_ops.Common.Json.{Entries, lookup, insert}
use release_ops.Roadmap.{Task, Link, Hit, search_by_roadmap_id}
use release_ops.Roadmap.Tracker.{
  Tracker, Draft, instance_status, list_tasks, search_tasks, get_task, list_labels, create_label,
  create_task, add_label, relate, put_status, all_tasks, M, ◌>>=◌, ◌>>◌, pure,
}
use release_ops.Roadmap.Planning.{
  Settings, Progress, Ending, refused, planned, create_order, leaves, existing_by_roadmap_id,
  label_map, github_issue_from_task, build_description, plan_create, plan_skip, issue_number,
  note_created, truthy, to_plan, no_progress,
}

-- What the search looks for.
abbrev pub query_of : String → String
query_of id = String.◌++◌ "Roadmap ID: " id

module _ (T : Tracker) where
  abbrev pub Calls : Type 0 → Type 0
  Calls A = M T.State A

  -- `searchByRoadmapId`
  unfoldable pub search : String → Calls (Option Hit)
  search id = do
    results ← T.api (search_tasks (query_of id))
    pure (search_by_roadmap_id id results)

  -- `waitForGithubIssue`: the issue, once one of the looks at the task shows it.
  unfoldable pub wait_for_github_issue : ℕ → String → Calls (Option Link)
  wait_for_github_issue zero task_id = pure none
  wait_for_github_issue (suc polls) task_id =
      let again = wait_for_github_issue polls task_id in
      do
        task ← T.api (get_task task_id)
        elim (github_issue_from_task task) [ some link ↦ pure (some link) | none ↦ again ]

  -- `ensureLabel`, with the map that it changes.
  unfoldable pub ensure_label : String → Progress → Calls (String × Progress)
  ensure_label name p = elim (lookup name p.label_by_name) [
    | some id ↦ pure (id, p)
    | none ↦ do
      id ← T.api (create_label name)
      pure (id, record p { label_by_name = insert name id p.label_by_name })
  ]

  module _ (settings : Settings) where
    abbrev pub draft_of : Task → Progress → Draft
    draft_of task p = record {
      title = task.title;
      description = build_description task p.github_by_roadmap_id;
      priority = task.priority;
      status = "backlog";
      user_id = settings.user_id;
    }

    -- What follows the call that creates a task.
    unfoldable pub finish_create : Task → Progress → String → Calls Progress
    finish_create task p id = do
      link ← wait_for_github_issue settings.polls id
      (label_id, p') ← ensure_label task.domain (record p {
        phasical_by_roadmap_id = insert task.id id p.phasical_by_roadmap_id;
        github_by_roadmap_id =
            note_created task.id (issue_number settings link) p.github_by_roadmap_id;
      })
      T.api (add_label label_id id)
      pure p'

    unfoldable pub create : Task → Progress → Calls Progress
    create task p = T.api (create_task (draft_of task p)) >>= finish_create task p

    abbrev pub skip_or_create : Task → Progress → Option Hit → Calls Progress
    skip_or_create task p (some hit) = pure (plan_skip settings task hit p)
    skip_or_create task p none =
        if settings.apply then create task (plan_create task p) else pure (plan_create task p)

    abbrev pub find_existing : Task → Option Hit → Calls (Option Hit)
    find_existing task (some hit) = pure (some hit)
    find_existing task none = if settings.apply then search task.id else pure none

    -- One round of the loop over the tasks.
    unfoldable pub import_task : Entries Hit → Task → Progress → Calls Progress
    import_task existing task p =
        find_existing task (lookup task.id existing) >>= skip_or_create task p

    unfoldable pub import_all : Entries Hit → List Task → Progress → Calls Progress
    import_all existing [] p = pure p
    import_all existing (task ∷ tasks) p = import_task existing task p >>= import_all existing tasks

  abbrev pub relate_both : String → Option String → Option String → Calls (Unit {0})
  relate_both relation_type (some source) (some target) = T.api (relate source target relation_type)
  relate_both relation_type (some source) none = pure tt
  relate_both relation_type none target = pure tt

  -- The tracker's identifier of a task of the roadmap.
  abbrev pub tracked : Entries String → String → Option String
  tracked known id = truthy (lookup id known)

  unfoldable pub wire_blockers : Entries String → String → List String → Calls (Unit {0})
  wire_blockers known id [] = pure tt
  wire_blockers known id (blocker ∷ rest) =
      relate_both "blocks" (tracked known blocker) (tracked known id) >> wire_blockers known id rest

  abbrev pub wire_parent : Entries String → Task → Calls (Unit {0})
  wire_parent known leaf = elim leaf.parent [
    | none ↦ pure tt
    | some parent ↦ relate_both "subtask" (tracked known parent) (tracked known leaf.id)
  ]

  -- The loop that relates the leaves.
  unfoldable pub wire : Entries String → List Task → Calls (Unit {0})
  unfolding wire_blockers
  wire known [] = pure tt
  wire known (leaf ∷ rest) =
      wire_parent known leaf >> (wire_blockers known leaf.id leaf.depends_on >> wire known rest)

  -- The loop that makes the tasks ready.
  unfoldable pub make_ready : Entries String → List Task → Calls (Unit {0})
  make_ready known [] = pure tt
  make_ready known (task ∷ rest) =
      elim (tracked known task.id) [ none ↦ pure tt | some id ↦ T.api (put_status id "ready") ]
      >> make_ready known rest

  unfoldable pub finish : List Task → Progress → Calls Ending
  finish tasks p = do
    wire p.phasical_by_roadmap_id (leaves tasks)
    make_ready p.phasical_by_roadmap_id tasks
    pure (planned (to_plan tasks p))

  module _ (settings : Settings) where
    -- `main` with `--apply`, once the credentials are there.
    unfoldable pub main_apply : List Task → Calls Ending
    main_apply tasks = do
      T.api instance_status
      board ← T.api list_tasks
      labels ← T.api list_labels
      p ←
          import_all settings (existing_by_roadmap_id [] (all_tasks board)) (create_order tasks)
            (no_progress (label_map [] labels))
      finish tasks p

    unfoldable pub main_dry : List Task → Calls Ending
    main_dry tasks = do
      p ← import_all settings [] (create_order tasks) (no_progress [])
      pure (planned (to_plan tasks p))

    -- The whole script. `none` is an error that `main().catch` prints; the audit of the intake runs first.
    unfoldable pub main : (audit_passed : Bool) → List Task → Calls Ending
    main audit_passed tasks =
        if not audit_passed
        then pure refused
        else if not settings.apply
        then main_dry tasks
        else if not settings.has_api_key
        then pure refused
        else if not (is_some (truthy settings.user_id))
        then pure refused
        else main_apply tasks
