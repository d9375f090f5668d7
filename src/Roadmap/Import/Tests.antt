-- ===== src/Roadmap/Import/Tests.antt =====
-- Examples for the import.
use release_ops.Common.{String, ◌≡◌, refl, ◌⊎◌, false, [], ◌∷◌, map, Option, none, some}
use release_ops.Common.Json.{lookup, insert}
use release_ops.Roadmap.{Hit, search_by_roadmap_id}
use release_ops.Roadmap.Marked.{roadmap_id_of, match_here, after}
use release_ops.Roadmap.Tracker.{all_tasks}
use release_ops.Roadmap.Planning.{
  planned, Plan, create_order, existing_by_roadmap_id, label_map, relations, build_description,
  to_planned, leaves,
}
use release_ops.Roadmap.Import
use release_ops.Roadmap.Import.{query_of, main, main_apply, main_dry}
use release_ops.Roadmap.Import.Calm.{occ, count}
use release_ops.Roadmap.Import.Again.{main_apply_twice}
use release_ops.Common.Text.{includes, starts_with}
use release_ops.Roadmap.Import.Unique.{AreMarked}
use release_ops.Roadmap.Import.Dry.{main_dry_lem}
use release_ops.Roadmap.Import.Ready.{main_apply-resets}
use release_ops.Roadmap.Import.Memory.{
  Memory, memory, memory-IsLawful, memory_board, applying, applying-IsPlain, empty, epic_task,
  leaf_task, roadmap,
}

roadmap-AreMarked : AreMarked (create_order roadmap)
unfolding roadmap_id_of match_here
roadmap-AreMarked = (refl, (refl, tt))

-- The tracker after the first run.
abbrev imported : Memory
imported = (main_apply memory applying roadmap empty).1

abbrev first_plan : Plan
first_plan = record {
  create = map to_planned (epic_task ∷ leaf_task ∷ []);
  skip = [];
  relations = relations (leaf_task ∷ []);
}

running : Unit {0}
unfolding main_apply Import.import_all Import.import_task lookup insert existing_by_roadmap_id
    Import.search search_by_roadmap_id Import.create Import.finish_create
    Import.wait_for_github_issue Import.ensure_label label_map includes build_description
    starts_with Import.finish Import.wire Import.make_ready Import.wire_blockers after match_here
    roadmap_id_of relations
running = tt

first_run : main_apply memory applying roadmap empty ≡ (some (planned first_plan), imported)
unfolding running
first_run = refl

-- The parent's line is there, and both tasks are ready.
first_run_tasks :
    map (λ h. h.description) imported.hits
    ≡ some
        "**Parent:** https://github.com/mdg-labs/release-ops/issues/7\n\nList them.\n\n---\n\n**Roadmap ID:** E01-01"
      ∷ some "Watch them.\n\n---\n\n**Roadmap ID:** E01"
      ∷ []
unfolding running
first_run_tasks = refl

main_apply_twice_example :
    let again = main_apply memory applying roadmap imported in
    (count memory memory-IsLawful again.1 ≡ count memory memory-IsLawful imported)
    × ((id : String)
        → occ memory memory-IsLawful id again.1 ≡ occ memory memory-IsLawful id imported)
    × ((again.0 ≡ none) ⊎ ((plan : Plan) × (again.0 ≡ some (planned plan)) × (plan.create ≡ [])))
main_apply_twice_example =
    main_apply_twice memory memory-IsLawful applying applying-IsPlain roadmap empty imported
      (planned first_plan) refl roadmap-AreMarked first_run

main_dry_lem_example : main_dry memory (record applying { apply = false }) roadmap empty ≡ (
  some (
      planned (record {
        create = map to_planned (create_order roadmap);
        skip = [];
        relations = relations (leaves roadmap);
      })),
  empty,
)
main_dry_lem_example = main_dry_lem memory (record applying { apply = false }) refl roadmap empty

-- An epic that is done.
abbrev done_hit : Hit
done_hit = record { id = "t1"; description = some "**Roadmap ID:** E01"; links = [] }

abbrev done_status : String → Option String
done_status id = some "done"

abbrev done : Memory
done = record { hits = done_hit ∷ []; status = done_status }

abbrev after_done : Memory
after_done = (main_apply memory applying roadmap done).1

abbrev done_plan : Plan
done_plan = record {
  create = map to_planned (leaf_task ∷ []);
  skip = "E01" ∷ [];
  relations = relations (leaf_task ∷ []);
}

done_run : main_apply memory applying roadmap done ≡ (some (planned done_plan), after_done)
unfolding running
done_run = refl

done_listed :
    lookup "E01" (existing_by_roadmap_id [] (all_tasks (memory_board done))) ≡ some done_hit
unfolding running
done_listed = refl

main_apply-resets_example : after_done.status "t1" ≡ some "ready"
unfolding memory-IsLawful
main_apply-resets_example =
    main_apply-resets memory memory-IsLawful applying roadmap "E01" done_hit done after_done
      (planned done_plan) refl refl done_listed refl done_run
