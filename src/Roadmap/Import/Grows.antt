-- ===== src/Roadmap/Import/Grows.antt =====
-- After a successful import the tracker knows every task of the roadmap.
use release_ops.Common.{
  ◌≤◌, ◌<◌, String, eq_refl, ◌≡◌, sym, ap, subst, ◌∙◌, ◌≢◌, ◌⊎◌, inl, inr, true, List, [], ◌∷◌,
  Option, none, some, arith, if◌then◌else◌, All, Option-cases,
}
use release_ops.Common.Json.{Entries, lookup}
use release_ops.Roadmap.{Task, Hit, search_by_roadmap_id}
use release_ops.Roadmap.Marked.{roadmap_id_of}
use release_ops.Roadmap.Tracker.{
  Tracker, IsLawful, Request, search_tasks, create_task, after_call, Ends, Ends-bind, Ends-both,
  Ends-then, Ends-crash, Ends-success, pure,
}
use release_ops.Roadmap.Planning.{
  Settings, Progress, plan_create, plan_skip, github_issue_from_task,
}
use release_ops.Roadmap.Import.{
  query_of, draft_of, search, finish_create, create, skip_or_create, import_task, import_all,
}
use release_ops.Roadmap.Import.Calm.{occ, Calm, Calm-refl, found-Ends, finish_create-Leads}
use release_ops.Roadmap.Import.Plain.{
  IsPlain, KnowsPlain, note_issue-KnowsPlain, finish_create-KnowsPlain,
}
use release_ops.Roadmap.Import.Unique.{AreMarked, adds-draft}

module _ (T : Tracker) (L : IsLawful T) where
  -- No task went, and no search lost all that it found.
  pub record Grows (s s' : T.State) : Type 0 where
    pub more : (id : String) → occ T L id s ≤ occ T L id s'
    pub finds : (query : String) → L.found s query ≢ [] → L.found s' query ≢ []

  pub Calm-Grows : (s t : T.State) → Calm T L s t → Grows s t
  Calm-Grows s t c = record { more = λ id. omega (arith, c.same id); finds = c.finds }

  pub Grows-trans : (s t u : T.State) → Grows s t → Grows t u → Grows s u
  Grows-trans s t u g h = record {
    more = λ id. omega (arith, g.more id, h.more id);
    finds = λ query found. h.finds query (g.finds query found);
  }

  Grows-api : (r : Request) (s : T.State) → Grows s (T.api r s).1
  Grows-api r s = record { more = λ id. L.keeps r id s; finds = λ query. L.still_finds r query s }

  -- The tracker has the task, or its search finds something for it.
  abbrev pub Known : T.State → Task → Type 0
  Known s task = (0 < occ T L task.id s) ⊎ (L.found s (query_of task.id) ≢ [])

  pub Grows-Known : (s t : T.State) (task : Task) → Grows s t → Known s task → Known t task
  Grows-Known s t task g (inl has) = inl (omega (arith, g.more task.id))
  Grows-Known s t task g (inr found) = inr (g.finds (query_of task.id) found)

  -- A search returns something exactly if the tracker finds something.
  pub search-found :
      (id : String) (s : T.State)
      → Ends
          (Calm T L s)
          (λ o t. (o ≡ search_by_roadmap_id id (L.found s (query_of id))) × Calm T L s t)
          (search T id s)
  unfolding search
  search-found id s =
      Ends-bind (Calm T L s) _ _ (λ results. pure (search_by_roadmap_id id results))
        (T.api (search_tasks (query_of id)) s) (found-Ends T L (query_of id) s)
        λ results t (c, e). (ap (search_by_roadmap_id id) e, c)

  pub found_of_hit :
      (id : String) (hits : List Hit) (hit : Hit)
      → search_by_roadmap_id id hits ≡ some hit
      → hits ≢ []
  unfolding search_by_roadmap_id
  found_of_hit id [] hit h e = absurd (cc)
  found_of_hit id (x ∷ xs) hit h e = cc

  module _ (settings : Settings) (plain : IsPlain settings) where
    create-Known :
        (task : Task) (p : Progress) (s : T.State)
        → roadmap_id_of task.description ≡ some task.id
        → KnowsPlain p.github_by_roadmap_id
        → Ends
            (λ _. Unit {0})
            (λ p' t. KnowsPlain p'.github_by_roadmap_id × Grows s t × Known t task)
            (create T settings task p s)
    unfolding create
    create-Known task p s marked known =
        let draft = draft_of T settings task p in
        let one = adds-draft T L settings plain task p task.id marked known in
        Ends-bind (λ _. Unit {0}) (λ _ t. Grows s t × (0 < occ T L task.id t)) _
          (finish_create T settings task p) (T.api (create_task draft) s)
          (Ends-success (Grows s) (λ t. 0 < occ T L task.id t) _ (Grows-api (create_task draft) s)
            (λ ok. ground (arith, one, L.creates draft task.id s ok, eq_refl task.id)))
          λ id t (g, has).
            let c = finish_create-Leads T L settings task p id t in
            Ends-then (λ _. Unit {0}) (λ p' v. KnowsPlain p'.github_by_roadmap_id × Calm T L t v) _
              _
              (Ends-both (λ _. Unit {0}) (λ p' _. KnowsPlain p'.github_by_roadmap_id) (Calm T L t) _
                tt c (finish_create-KnowsPlain T settings plain task p id t known))
              λ p' v (knows, calm). (
                knows,
                Grows-trans s t v g (Calm-Grows t v calm),
                inl (omega (arith, calm.same task.id, has)),
              )

    -- The map of existing tasks names only tasks that the tracker has.
    abbrev pub Rooted : Entries Hit → T.State → Type 0
    Rooted existing s = (id : String) → lookup id existing ≢ none → 0 < occ T L id s

    After : Entries Hit → Task → T.State → Progress → T.State → Type 0
    After existing task s p' t = KnowsPlain p'.github_by_roadmap_id × Grows s t × Known t task

    skip-Knows :
        (task : Task) (hit : Hit) (p : Progress)
        → KnowsPlain p.github_by_roadmap_id
        → KnowsPlain (plan_skip settings task hit p).github_by_roadmap_id
    skip-Knows task hit p h =
        note_issue-KnowsPlain settings plain task.id (github_issue_from_task hit)
          p.github_by_roadmap_id h

    skip_or_create-Known :
        (existing : Entries Hit) (task : Task) (p : Progress) (found : Option Hit) (s t : T.State)
        → settings.apply ≡ true
        → roadmap_id_of task.description ≡ some task.id
        → KnowsPlain p.github_by_roadmap_id
        → Calm T L s t
        → found ≡ search_by_roadmap_id task.id (L.found s (query_of task.id))
        → Ends (λ _. Unit {0}) (After existing task s) (skip_or_create T settings task p found t)
    unfolding After
    skip_or_create-Known existing task p (some hit) s t applied marked known c e = (
      skip-Knows task hit p known,
      Calm-Grows s t c,
      inr (c.finds (query_of task.id) (found_of_hit task.id _ hit (sym e))),
    )
    skip_or_create-Known existing task p none s t applied marked known c e =
        subst
          (λ b.
            Ends (λ _. Unit {0}) (After existing task s)
              ((if b
                  then create T settings task (plan_create task p)
                  else pure (plan_create task p))
                t))
          (sym applied)
          (Ends-then (λ _. Unit {0}) (After existing task t) (After existing task s) _
            (create-Known task (plan_create task p) t marked known)
            λ p' v (knows, g, k). (knows, Grows-trans s t v (Calm-Grows s t c) g, k))

    import_task-Known :
        (existing : Entries Hit) (task : Task) (p : Progress) (s : T.State)
        → settings.apply ≡ true
        → roadmap_id_of task.description ≡ some task.id
        → KnowsPlain p.github_by_roadmap_id
        → Rooted existing s
        → Ends (λ _. Unit {0}) (After existing task s) (import_task T settings existing task p s)
    unfolding import_task After
    import_task-Known existing task p s applied marked known rooted =
        elim (Option-cases (lookup task.id existing)) [
          | inr (hit, e) ↦ rw e (
            skip-Knows task hit p known,
            Calm-Grows s s (Calm-refl T L s),
            inl (rooted task.id (λ n. let clash : none ≡ some hit = sym n ∙ e in cc)),
          )
          | inl unknown ↦ rw unknown (
              subst
                (λ b.
                  Ends (λ _. Unit {0}) (After existing task s)
                    (after_call (skip_or_create T settings task p)
                      ((if b then search T task.id else pure none) s)))
                (sym applied)
                (Ends-bind (λ _. Unit {0})
                  (λ o t.
                    (o ≡ search_by_roadmap_id task.id (L.found s (query_of task.id)))
                    × Calm T L s t)
                  (After existing task s) (skip_or_create T settings task p) (search T task.id s)
                  (Ends-crash (Calm T L s) (λ _. Unit {0})
                    (λ o t.
                      (o ≡ search_by_roadmap_id task.id (L.found s (query_of task.id)))
                      × Calm T L s t)
                    (search T task.id s) (search-found task.id s) (λ _ _. tt))
                  λ o t (e, c).
                    skip_or_create-Known existing task p o s t applied marked known c e))
        ]

    -- A loop that ends knows every task.
    pub import_all-Known :
        (existing : Entries Hit) (todo : List Task) (p : Progress) (s : T.State)
        → settings.apply ≡ true
        → AreMarked todo
        → KnowsPlain p.github_by_roadmap_id
        → Rooted existing s
        → Ends
            (λ _. Unit {0})
            (λ _ t. Grows s t × All (Known t) todo)
            (import_all T settings existing todo p s)
    unfolding import_all After
    import_all-Known existing [] p s applied marked known rooted =
        (Calm-Grows s s (Calm-refl T L s), tt)
    import_all-Known existing (task ∷ todo) p s applied marked known rooted =
        Ends-bind (λ _. Unit {0}) (After existing task s) _ _
          (import_task T settings existing task p s)
          (import_task-Known existing task p s applied marked.0 known rooted)
          λ p' t (knows, g, k).
            Ends-then (λ _. Unit {0}) (λ _ v. Grows t v × All (Known v) todo) _ _
              (import_all-Known existing todo p' t applied marked.1 knows
                (λ id has. omega (arith, g.more id, rooted id has)))
              λ q v (h, ks). (Grows-trans s t v g h, (Grows-Known t v task h k, ks))
