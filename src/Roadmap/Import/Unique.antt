-- ===== src/Roadmap/Import/Unique.antt =====
-- A run of the import makes no second task with the same marker.
use release_ops.Common.{
  ◌+◌, ◌≤◌, String, ◌==◌, eq_iff, ◌≡◌, sym, subst, ◌∙◌, ◌≢◌, inl, inr, true, List, [], ◌∷◌, Option,
  none, some, arith, if◌then◌else◌, All, Option-cases,
}
use release_ops.Common.Json.{Entries, lookup}
use release_ops.Roadmap.{Task, Hit}
use release_ops.Roadmap.Marked.{roadmap_id_of}
use release_ops.Roadmap.Tracker.{
  Tracker, IsLawful, adds, create_task, after_call, Ends, Ends-bind, Ends-state, Ends-both,
  Ends-then, pure,
}
use release_ops.Roadmap.Import.{
  draft_of, finish_create, create, skip_or_create, import_task, import_all, search,
}
use release_ops.Roadmap.Import.Calm.{occ, Calm, search-Leads, finish_create-Leads}
use release_ops.Roadmap.Planning.{
  Progress, plan_create, plan_skip, github_issue_from_task, Settings, parent_issue,
  build_description,
}
use release_ops.Roadmap.Import.Plain.{
  IsPlain, KnowsPlain, roadmap_id_of-with_parent, parent_issue-plain, note_issue-KnowsPlain,
  finish_create-KnowsPlain,
}

-- No two tasks have the same identifier.
abbrev pub AreDistinct : List Task → Type 0
AreDistinct [] = Unit
AreDistinct (task ∷ todo) = All (λ u. u.id ≢ task.id) todo × AreDistinct todo

-- Every task's description has its own identifier as the first marker.
abbrev pub AreMarked : List Task → Type 0
AreMarked = All (λ t. roadmap_id_of t.description ≡ some t.id)

module _ (T : Tracker) (L : IsLawful T) (settings : Settings) (plain : IsPlain settings) where
  -- A created task counts for its own identifier and for no other.
  pub adds-draft :
      (task : Task) (p : Progress) (id : String)
      → roadmap_id_of task.description ≡ some task.id
      → KnowsPlain p.github_by_roadmap_id
      → adds (create_task (draft_of T settings task p)) id ≡ (if task.id == id then 1 else 0)
  unfolding adds build_description
  adds-draft task p id marked known =
      rw
        (roadmap_id_of-with_parent (parent_issue task p.github_by_roadmap_id) task.description
          (parent_issue-plain task p.github_by_roadmap_id known))
        (rw marked)

  abbrev pub Unique : T.State → Type 0
  Unique s = (id : String) → occ T L id s ≤ 1

  pub Calm-Unique : (s t : T.State) → Calm T L s t → Unique s → Unique t
  Calm-Unique s t c u id = rw (c.same id) (u id)

  module _ (existing : Entries Hit) where
    abbrev pub Fresh : T.State → Task → Type 0
    Fresh s task = lookup task.id existing ≡ none → occ T L task.id s ≡ 0

    -- Between two rounds of the loop, with the tasks that are left.
    pub record Good (todo : List Task) (p : Progress) (s : T.State) : Type 0 where
      pub unique : Unique s
      pub fresh : All (Fresh s) todo
      pub knows : KnowsPlain p.github_by_roadmap_id

    skip-Good :
        (task : Task) (todo : List Task) (hit : Hit) (p : Progress) (s : T.State)
        → Good (task ∷ todo) p s
        → Good todo (plan_skip settings task hit p) s
    skip-Good task todo hit p s g = record {
      unique = g.unique;
      fresh = g.fresh.1;
      knows =
          note_issue-KnowsPlain settings plain task.id (github_issue_from_task hit)
            p.github_by_roadmap_id g.knows;
    }

    Calm-Fresh :
        (s t : T.State) (todo : List Task) → Calm T L s t → All (Fresh s) todo → All (Fresh t) todo
    Calm-Fresh s t [] c h = tt
    Calm-Fresh s t (task ∷ todo) c (h, hs) =
        (λ unknown. c.same task.id ∙ h unknown, Calm-Fresh s t todo c hs)

    Calm-Good :
        (todo : List Task) (p : Progress) (s t : T.State)
        → Calm T L s t
        → Good todo p s
        → Good todo p t
    Calm-Good todo p s t c g = record {
      unique = Calm-Unique s t c g.unique;
      fresh = Calm-Fresh s t todo c g.fresh;
      knows = g.knows;
    }

    -- What the call that creates a task does, whether it fails or not.
    created-occ :
        (task : Task) (p : Progress) (id : String) (s : T.State)
        → roadmap_id_of task.description ≡ some task.id
        → KnowsPlain p.github_by_roadmap_id
        → occ T L id (T.api (create_task (draft_of T settings task p)) s).1
          ≤ occ T L id s + (if task.id == id then 1 else 0)
    created-occ task p id s marked known =
        rw (← adds-draft task p id marked known)
          (L.adds_at_most (create_task (draft_of T settings task p)) id s)

    created-Unique :
        (task : Task) (p : Progress) (s : T.State)
        → roadmap_id_of task.description ≡ some task.id
        → KnowsPlain p.github_by_roadmap_id
        → Unique s
        → occ T L task.id s ≡ 0
        → Unique (T.api (create_task (draft_of T settings task p)) s).1
    created-Unique task p s marked known u absent id =
        ground (arith, created-occ task p id s marked known, u id, eq_iff task.id id, absent)

    created-Fresh :
        (task : Task) (p : Progress) (s : T.State) (todo : List Task)
        → roadmap_id_of task.description ≡ some task.id
        → KnowsPlain p.github_by_roadmap_id
        → All (λ u. u.id ≢ task.id) todo
        → All (Fresh s) todo
        → All (Fresh (T.api (create_task (draft_of T settings task p)) s).1) todo
    created-Fresh task p s [] marked known d h = tt
    created-Fresh task p s (u ∷ todo) marked known (d, ds) (h, hs) = (
      λ unknown.
          ground (arith, created-occ task p u.id s marked known, h unknown, eq_iff task.id u.id, d),
      created-Fresh task p s todo marked known ds hs,
    )

    create-Good :
        (task : Task) (todo : List Task) (p : Progress) (s : T.State)
        → roadmap_id_of task.description ≡ some task.id
        → All (λ u. u.id ≢ task.id) todo
        → lookup task.id existing ≡ none
        → Good (task ∷ todo) p s
        → Ends Unique (Good todo) (create T settings task p s)
    unfolding create
    create-Good task todo p s marked others unknown g =
        let u = created-Unique task p s marked g.knows g.unique (g.fresh.0 unknown) in
        let f = created-Fresh task p s todo marked g.knows others g.fresh.1 in
        Ends-bind Unique (λ _ t. Unique t × All (Fresh t) todo) (Good todo)
          (finish_create T settings task p) (T.api (create_task (draft_of T settings task p)) s)
          (Ends-state Unique (λ t. Unique t × All (Fresh t) todo) _ u (u, f))
          λ id t (unique, fresh).
            let c = finish_create-Leads T L settings task p id t in
            Ends-then Unique (λ p' v. KnowsPlain p'.github_by_roadmap_id × Calm T L t v) (Good todo)
              (finish_create T settings task p id t)
              (Ends-both Unique (λ p' _. KnowsPlain p'.github_by_roadmap_id) (Calm T L t) _
                (Calm-Unique t _ c unique) c
                (finish_create-KnowsPlain T settings plain task p id t g.knows))
              λ p' v (knows, calm). record {
                unique = Calm-Unique t v calm unique;
                fresh = Calm-Fresh t v todo calm fresh;
                knows = knows;
              }

    skip_or_create-Good :
        (task : Task) (todo : List Task) (p : Progress) (found : Option Hit) (s : T.State)
        → settings.apply ≡ true
        → roadmap_id_of task.description ≡ some task.id
        → All (λ u. u.id ≢ task.id) todo
        → lookup task.id existing ≡ none
        → Good (task ∷ todo) p s
        → Ends Unique (Good todo) (skip_or_create T settings task p found s)
    skip_or_create-Good task todo p (some hit) s applied marked others unknown g =
        skip-Good task todo hit p s g
    skip_or_create-Good task todo p none s applied marked others unknown g =
        subst
          (λ b. Ends Unique (Good todo) (
            (if b then create T settings task (plan_create task p) else pure (plan_create task p))
              s))
          (sym applied)
          (create-Good task todo (plan_create task p) s marked others unknown
            (record { unique = g.unique; fresh = g.fresh; knows = g.knows }))

    searched-Good :
        (task : Task) (todo : List Task) (p : Progress) (s : T.State)
        → settings.apply ≡ true
        → roadmap_id_of task.description ≡ some task.id
        → All (λ u. u.id ≢ task.id) todo
        → lookup task.id existing ≡ none
        → Good (task ∷ todo) p s
        → Ends Unique
            (Good todo)
            (after_call (skip_or_create T settings task p) (search T task.id s))
    searched-Good task todo p s applied marked others unknown g =
        let c = search-Leads T L task.id s in
        Ends-bind Unique (λ _ t. Calm T L s t) (Good todo) (skip_or_create T settings task p)
          (search T task.id s) (Ends-state Unique (Calm T L s) _ (Calm-Unique s _ c g.unique) c)
          λ found t calm.
            skip_or_create-Good task todo p found t applied marked others unknown
              (Calm-Good (task ∷ todo) p s t calm g)

    import_task-Good :
        (task : Task) (todo : List Task) (p : Progress) (s : T.State)
        → settings.apply ≡ true
        → roadmap_id_of task.description ≡ some task.id
        → All (λ u. u.id ≢ task.id) todo
        → Good (task ∷ todo) p s
        → Ends Unique (Good todo) (import_task T settings existing task p s)
    unfolding import_task
    import_task-Good task todo p s applied marked others g =
        elim (Option-cases (lookup task.id existing)) [
          | inr (hit, known) ↦ rw known (skip-Good task todo hit p s g)
          | inl unknown ↦ rw unknown (
              subst
                (λ b. Ends Unique (Good todo) (
                  after_call (skip_or_create T settings task p)
                    ((if b then search T task.id else pure none) s)))
                (sym applied) (searched-Good task todo p s applied marked others unknown g))
        ]

    pub import_all-Unique :
        (todo : List Task) (p : Progress) (s : T.State)
        → settings.apply ≡ true
        → AreMarked todo
        → AreDistinct todo
        → Good todo p s
        → Ends Unique (λ _. Unique) (import_all T settings existing todo p s)
    unfolding import_all
    import_all-Unique [] p s applied marked distinct g = g.unique
    import_all-Unique (task ∷ todo) p s applied marked distinct g =
        Ends-bind Unique (Good todo) (λ _. Unique) _ (import_task T settings existing task p s)
          (import_task-Good task todo p s applied marked.0 distinct.0 g)
          λ p' t good. import_all-Unique todo p' t applied marked.1 distinct.1 good
