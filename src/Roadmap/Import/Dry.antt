-- ===== src/Roadmap/Import/Dry.antt =====
-- The import without `--apply`.
use release_ops.Common.{
  ◌≡◌, refl, subst, sym, false, List, [], ◌∷◌, ◌++◌, map, Option, none, some, if◌then◌else◌,
}
use release_ops.Common.Json.{lookup}
use mathlib.Core.List.{append_assoc, append-nil}
use release_ops.Roadmap.{Task}
use release_ops.Roadmap.Tracker.{Tracker, after_call, pure}
use release_ops.Roadmap.Planning.{
  Settings, Progress, to_planned, plan_create, create_order, planned, relations, leaves,
  no_progress,
}
use release_ops.Roadmap.Import.{import_task, import_all, main_dry, skip_or_create, search, create}

module _ (T : Tracker) (settings : Settings) (dry : settings.apply ≡ false) where
  import_task-dry :
      (task : Task) (p : Progress) (s : T.State)
      → import_task T settings [] task p s ≡ (some (plan_create task p), s)
  unfolding import_task lookup
  import_task-dry task p s =
      subst
        (λ b.
          after_call
            (λ found. elim found as (λ _. T.State → Option Progress × T.State) [
              | some hit ↦ skip_or_create T settings task p (some hit)
              | none ↦
                  if b
                  then create T settings task (plan_create task p)
                  else pure (plan_create task p)
            ])
            ((if b then search T task.id else pure none) s)
          ≡ (some (plan_create task p), s))
        (sym dry) refl

  import_all-dry :
      (todo : List Task) (p : Progress) (s : T.State)
      → import_all T settings [] todo p s
        ≡ (some (record p { create = p.create ++ map to_planned todo }), s)
  unfolding import_all
  import_all-dry [] p s = rw (append-nil p.create)
  import_all-dry (task ∷ todo) p s = rw (
    import_task-dry task p s,
    import_all-dry todo (plan_create task p) s,
    append_assoc p.create (to_planned task ∷ []) (map to_planned todo),
  )

  -- A dry run plans to create every task, the epics before the leaves, and to relate the leaves. It
  -- plans to skip none, whatever the tracker has, and calls nothing.
  pub main_dry_lem :
      (tasks : List Task) (s : T.State)
      → main_dry T settings tasks s ≡ (
        some (
            planned (record {
              create = map to_planned (create_order tasks);
              skip = [];
              relations = relations (leaves tasks);
            })),
        s,
      )
  unfolding main_dry
  main_dry_lem tasks s = rw (import_all-dry (create_order tasks) (no_progress []) s)
