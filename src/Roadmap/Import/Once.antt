-- ===== src/Roadmap/Import/Once.antt =====
-- The whole import adds no second task with a marker that is there.
use release_ops.Common.{
  String, ◌≡◌, refl, sym, ◌∙◌, ◌≤◌, List, [], ◌∷◌, All, Option, none, some, Bool, true, false, not,
  if◌then◌else◌, is_some,
}
use release_ops.Roadmap.{Task}
use release_ops.Roadmap.Tracker.{
  Tracker, IsLawful, Board, occurrences, all_tasks, pure, Ends, Ends-bind, Ends-state,
}
use release_ops.Roadmap.Planning.{
  Settings, Ending, refused, create_order, existing_by_roadmap_id, no_progress, label_map, truthy,
}
use release_ops.Roadmap.Import.{finish, main_apply, main_dry, main}
use release_ops.Roadmap.Import.Calm.{occ, finish-Leads}
use release_ops.Roadmap.Import.Existing.{lookup-existing-none}
use release_ops.Roadmap.Import.Dry.{main_dry_lem}
use release_ops.Roadmap.Import.Opening.{main_apply-Ends, listed-occ}
use release_ops.Roadmap.Import.Plain.{IsPlain, nil-KnowsPlain}
use release_ops.Roadmap.Import.Unique.{
  AreMarked, AreDistinct, Unique, Calm-Unique, Fresh, import_all-Unique,
}

module _ (T : Tracker) (L : IsLawful T) (settings : Settings) (plain : IsPlain settings) where
  start-Fresh :
      (board : Board) (s : T.State) (todo : List Task)
      → ((id : String) → occurrences id (all_tasks board) ≡ occ T L id s)
      → All (Fresh T L settings plain (existing_by_roadmap_id [] (all_tasks board)) s) todo
  start-Fresh board s [] same = tt
  start-Fresh board s (task ∷ todo) same = (
    λ unknown. sym (same task.id) ∙ (lookup-existing-none task.id [] (all_tasks board) unknown).1,
    start-Fresh board s todo same,
  )

  main_apply-Unique :
      (tasks : List Task) (s : T.State)
      → settings.apply ≡ true
      → AreMarked (create_order tasks)
      → AreDistinct (create_order tasks)
      → Unique T L settings plain s
      → Ends
          (Unique T L settings plain)
          (λ _. Unique T L settings plain)
          (main_apply T settings tasks s)
  main_apply-Unique tasks s applied marked distinct u =
      let U = Unique T L settings plain in
      let moves = Calm-Unique T L settings plain in
      main_apply-Ends T L settings U (λ _. U) tasks s (λ t c. moves s t c u)
        λ board labels t listed c.
          let same : (id : String) → occurrences id (all_tasks board) ≡ occ T L id s =
            λ id. listed-occ T L board s id listed in
          Ends-bind U (λ _. U) (λ _. U) (finish T tasks) _
            (import_all-Unique T L settings plain _ (create_order tasks)
              (no_progress (label_map [] labels)) t applied marked distinct
              (record {
                unique = moves s t c u;
                fresh = start-Fresh board t (create_order tasks) (λ id. same id ∙ sym (c.same id));
                knows = nil-KnowsPlain;
              }))
            λ p x ux.
              let f = moves x _ (finish-Leads T L tasks p x) ux in
              Ends-state U U (finish T tasks p x) f f

  -- Which part of `main` runs.
  main-cases :
      (P : Option Ending × T.State → Type 0) (audit_passed : Bool) (tasks : List Task) (s : T.State)
      → P (some refused, s)
      → (settings.apply ≡ false → P (main_dry T settings tasks s))
      → (settings.apply ≡ true → P (main_apply T settings tasks s))
      → P (main T settings audit_passed tasks s)
  unfolding main
  main-cases P audit_passed tasks s no_run dry run =
      choose audit_passed settings.apply settings.has_api_key (is_some (truthy settings.user_id))
        dry run
    where
      choose :
          (audit apply key user : Bool)
          → (apply ≡ false → P (main_dry T settings tasks s))
          → (apply ≡ true → P (main_apply T settings tasks s))
          → P (
              (if not audit
                  then pure refused
                  else if not apply
                  then main_dry T settings tasks
                  else if not key
                  then pure refused
                  else if not user
                  then pure refused
                  else main_apply T settings tasks)
                s)
      choose false apply key user dry run = no_run
      choose true false key user dry run = dry refl
      choose true true false user dry run = no_run
      choose true true true false dry run = no_run
      choose true true true true dry run = run refl

  -- A run of the import, whether it succeeds or fails at some call, leaves no two tasks with one marker
  -- if there were none before, the descriptions of the roadmap begin with the markers of their own
  -- identifiers, and these are distinct.
  pub main_once :
      (audit_passed : Bool) (tasks : List Task) (s : T.State)
      → AreMarked (create_order tasks)
      → AreDistinct (create_order tasks)
      → ((id : String) → occ T L id s ≤ 1)
      → (id : String) → occ T L id (main T settings audit_passed tasks s).1 ≤ 1
  main_once audit_passed tasks s marked distinct u id =
      main-cases (λ end. occ T L id end.1 ≤ 1) audit_passed tasks s (u id)
        (λ dry. rw (main_dry_lem T settings dry tasks s) (u id))
        (λ applied. ended _ (main_apply-Unique tasks s applied marked distinct u))
    where
      ended :
          (end : Option Ending × T.State)
          → Ends (Unique T L settings plain) (λ _. Unique T L settings plain) end
          → occ T L id end.1 ≤ 1
      ended (none, t) h = h id
      ended (some a, t) h = h id
