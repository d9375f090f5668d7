-- ===== src/Roadmap/Import/Again.antt =====
-- An import that succeeded, run again.
use release_ops.Common.{
  ◌<◌, String, ◌≡◌, refl, sym, ap, subst, ◌∙◌, ◌≢◌, ◌⊎◌, inl, inr, true, List, [], ◌∷◌, Option,
  none, some, arith, if◌then◌else◌, All, Option-cases,
}
use release_ops.Common.Json.{Entries, lookup}
use release_ops.Roadmap.{Task, Hit, search_by_roadmap_id}
use release_ops.Roadmap.Markers.{search_by_roadmap_id-cases}
use release_ops.Roadmap.Tracker.{
  Tracker, IsLawful, Board, occurrences, all_tasks, after_call, Ends, Ends-bind, Ends-both,
  Ends-always, Ends-then, Ends-state, Ends-crash, pure,
}
use release_ops.Roadmap.Planning.{
  Settings, Progress, Ending, planned, Plan, to_plan, create_order, leaves, existing_by_roadmap_id,
  no_progress, label_map,
}
use release_ops.Roadmap.Import.{
  query_of, search, skip_or_create, import_task, import_all, finish, wire, make_ready, main_apply,
}
use release_ops.Roadmap.Import.Calm.{occ, count, Calm, Calm-refl, Calm-trans, finish-Leads}
use release_ops.Roadmap.Import.Existing.{lookup-existing-none, lookup-existing-some}
use release_ops.Roadmap.Import.Opening.{main_apply-Ends, listed-occ}
use release_ops.Roadmap.Import.Plain.{IsPlain, nil-KnowsPlain}
use release_ops.Roadmap.Import.Unique.{AreMarked}
use release_ops.Roadmap.Import.Grows.{
  Grows, Calm-Grows, Grows-Known, Known, search-found, import_all-Known,
}

hit_of_found :
    (id : String) (hits : List Hit)
    → hits ≢ []
    → (hit : Hit) × (search_by_roadmap_id id hits ≡ some hit)
hit_of_found id hits h = elim (search_by_roadmap_id-cases id hits) [
  | inl (empty, _) ↦ absurd (h empty)
  | inr (hit, e, _) ↦ (hit, e)
]

nothing : (id : String) → lookup {V = Hit} id [] ≡ none
unfolding lookup
nothing id = refl

module _ (T : Tracker) (L : IsLawful T) (settings : Settings) where
  Known-all-Calm :
      (s t : T.State) (tasks : List Task)
      → Calm T L s t
      → All (Known T L s) tasks
      → All (Known T L t) tasks
  Known-all-Calm s t [] c h = tt
  Known-all-Calm s t (task ∷ tasks) c (h, hs) =
      (Grows-Known T L s t task (Calm-Grows T L s t c) h, Known-all-Calm s t tasks c hs)

  module _ (existing : Entries Hit) where
    -- A task that the map does not know is not in the tracker's listing.
    abbrev Listed : T.State → Type 0
    Listed s = (id : String) → lookup id existing ≡ none → occ T L id s ≡ 0

    -- The state and the plan after a round that created nothing.
    abbrev Skips : T.State → Progress → Progress → T.State → Type 0
    Skips s p p' t = Calm T L s t × (p'.create ≡ p.create)

    still_found :
        (task : Task) (s : T.State)
        → Listed s
        → lookup task.id existing ≡ none
        → Known T L s task
        → L.found s (query_of task.id) ≢ []
    still_found task s listed unknown (inl has) =
        absurd (omega (arith, listed task.id unknown, has))
    still_found task s listed unknown (inr found) = found

    import_task-Skips :
        (task : Task) (p : Progress) (s : T.State)
        → settings.apply ≡ true
        → Listed s
        → Known T L s task
        → Ends (Calm T L s) (Skips s p) (import_task T settings existing task p s)
    unfolding import_task
    import_task-Skips task p s applied listed known =
        elim (Option-cases (lookup task.id existing)) [
          | inr (hit, e) ↦ rw e (Calm-refl T L s, refl)
          | inl unknown ↦ rw unknown (
              subst
                (λ b. Ends (Calm T L s) (Skips s p) (
                  after_call (skip_or_create T settings task p)
                    ((if b then search T task.id else pure none) s)))
                (sym applied)
                (Ends-bind (Calm T L s) _ (Skips s p) (skip_or_create T settings task p)
                  (search T task.id s) (search-found T L task.id s)
                  λ o t (e, c).
                    let (hit, found) =
                      hit_of_found task.id _ (still_found task s listed unknown known) in
                    subst
                      (λ r. Ends (Calm T L s) (Skips s p) (skip_or_create T settings task p r t))
                      (sym (e ∙ found)) (c, refl)))
        ]

    Listed-Calm : (s t : T.State) → Calm T L s t → Listed s → Listed t
    Listed-Calm s t c listed id unknown = c.same id ∙ listed id unknown

    import_all-Skips :
        (todo : List Task) (p : Progress) (s : T.State)
        → settings.apply ≡ true
        → Listed s
        → All (Known T L s) todo
        → Ends (Calm T L s) (Skips s p) (import_all T settings existing todo p s)
    unfolding import_all
    import_all-Skips [] p s applied listed known = (Calm-refl T L s, refl)
    import_all-Skips (task ∷ todo) p s applied listed known =
        Ends-bind (Calm T L s) (Skips s p) (Skips s p) _ (import_task T settings existing task p s)
          (import_task-Skips task p s applied listed known.0)
          λ p' t (c, e).
            let rest = import_all T settings existing todo p' t in
            Ends-crash (Calm T L t) (Calm T L s) (Skips s p) rest
              (Ends-then (Calm T L t) (Skips t p') (Skips s p) rest
                (import_all-Skips todo p' t applied (Listed-Calm s t c listed)
                  (Known-all-Calm s t todo c known.1))
                λ q v (d, f). (Calm-trans T L s t v c d, f ∙ e))
              (λ v d. Calm-trans T L s t v c d)

  -- What a run that knows every task ends with.
  abbrev Nothing : T.State → Ending → T.State → Type 0
  Nothing s ending t = Calm T L s t × ((plan : Plan) × (ending ≡ planned plan) × (plan.create ≡ []))

  finish-result :
      (tasks : List Task) (p : Progress) (s : T.State)
      → Ends (λ _. Unit {0}) (λ ending _. ending ≡ planned (to_plan tasks p)) (finish T tasks p s)
  unfolding finish
  finish-result tasks p s =
      Ends-bind (λ _. Unit {0}) (λ _ _. Unit {0}) _ _
        (wire T p.phasical_by_roadmap_id (leaves tasks) s) (Ends-always _)
        λ _ t _.
          Ends-bind (λ _. Unit {0}) (λ _ _. Unit {0}) _ _
            (make_ready T p.phasical_by_roadmap_id tasks t) (Ends-always _) λ _ u _. refl

  finish-planned :
      (s t : T.State) (tasks : List Task) (p : Progress)
      → Calm T L s t
      → p.create ≡ []
      → Ends (Calm T L s) (Nothing s) (finish T tasks p t)
  finish-planned s t tasks p c e =
      let end = finish T tasks p t in
      let d = Calm-trans T L s t _ c (finish-Leads T L tasks p t) in
      Ends-then (Calm T L s) (λ ending v. (ending ≡ planned (to_plan tasks p)) × Calm T L s v)
        (Nothing s) end
        (Ends-both (Calm T L s) (λ ending _. ending ≡ planned (to_plan tasks p)) (Calm T L s) end d
          d (finish-result tasks p t))
        λ ending v (same, calm). (calm, (to_plan tasks p, same, e))

  main_apply-again :
      (tasks : List Task) (s : T.State)
      → settings.apply ≡ true
      → All (Known T L s) (create_order tasks)
      → Ends (Calm T L s) (Nothing s) (main_apply T settings tasks s)
  main_apply-again tasks s applied known =
      main_apply-Ends T L settings (Calm T L s) (Nothing s) tasks s (λ t c. c)
        λ board labels t listed c.
          let same : (id : String) → occurrences id (all_tasks board) ≡ occ T L id s =
            λ id. listed-occ T L board s id listed in
          let existing = existing_by_roadmap_id [] (all_tasks board) in
          let start = no_progress (label_map [] labels) in
          let loop = import_all T settings existing (create_order tasks) start t in
          Ends-bind (Calm T L s) (Skips existing t start) (Nothing s) (finish T tasks) loop
            (Ends-crash (Calm T L t) (Calm T L s) (Skips existing t start) loop
              (import_all-Skips existing (create_order tasks) start t applied
                (λ id unknown.
                  c.same id
                  ∙ sym (same id)
                  ∙ (lookup-existing-none id [] (all_tasks board) unknown).1)
                (Known-all-Calm s t (create_order tasks) c known))
              (λ v d. Calm-trans T L s t v c d))
            λ p v (d, e). finish-planned s v tasks p (Calm-trans T L s t v c d) e

  module _ (plain : IsPlain settings) where
    main_apply-Known :
        (tasks : List Task) (s : T.State)
        → settings.apply ≡ true
        → AreMarked (create_order tasks)
        → Ends
            (λ _. Unit {0})
            (λ _ t. All (Known T L t) (create_order tasks))
            (main_apply T settings tasks s)
    main_apply-Known tasks s applied marked =
        main_apply-Ends T L settings (λ _. Unit {0}) (λ _ t. All (Known T L t) (create_order tasks))
          tasks s (λ t c. tt)
          λ board labels t listed c.
            let same : (id : String) → occurrences id (all_tasks board) ≡ occ T L id s =
              λ id. listed-occ T L board s id listed in
            let existing = existing_by_roadmap_id [] (all_tasks board) in
            let start = no_progress (label_map [] labels) in
            Ends-bind (λ _. Unit {0})
              (λ _ v. Grows T L t v × All (Known T L v) (create_order tasks)) _ (finish T tasks)
              (import_all T settings existing (create_order tasks) start t)
              (import_all-Known T L settings plain existing (create_order tasks) start t applied
                marked nil-KnowsPlain (rooted board t (λ id. same id ∙ sym (c.same id))))
              λ p v (g, known).
                Ends-state (λ _. Unit {0}) (λ w. All (Known T L w) (create_order tasks))
                  (finish T tasks p v) tt
                  (Known-all-Calm v _ (create_order tasks) (finish-Leads T L tasks p v) known)
      where
        rooted :
            (board : Board) (t : T.State)
            → ((id : String) → occurrences id (all_tasks board) ≡ occ T L id t)
            → (id : String) → lookup id (existing_by_roadmap_id [] (all_tasks board)) ≢ none
            → 0 < occ T L id t
        rooted board t same id has = elim (lookup-existing-some id [] (all_tasks board) has) [
          | inl old ↦ absurd (old (nothing id))
          | inr listed ↦ omega (arith, same id, listed)
        ]

    -- After a run with `--apply` that ended with a plan, a further run leaves the number of tasks,
    -- and of those with each marker, whether it succeeds or fails at some call, and if it ends with a
    -- plan, the plan creates nothing: if every task of the roadmap holds its own marker first, the
    -- texts that stand for issue numbers hold no asterisk, and the tracker is lawful.
    pub main_apply_twice :
        (tasks : List Task) (s t : T.State) (ending : Ending)
        → settings.apply ≡ true
        → AreMarked (create_order tasks)
        → main_apply T settings tasks s ≡ (some ending, t)
        → let again = main_apply T settings tasks t in
          (count T L again.1 ≡ count T L t)
          × ((id : String) → occ T L id again.1 ≡ occ T L id t)
          × ((again.0 ≡ none)
              ⊎ ((plan : Plan) × (again.0 ≡ some (planned plan)) × (plan.create ≡ [])))
    main_apply_twice tasks s t ending applied marked first =
        let known : All (Known T L t) (create_order tasks) =
          subst (Ends (λ _. Unit {0}) (λ _ u. All (Known T L u) (create_order tasks))) first
            (main_apply-Known tasks s applied marked) in
        conclude (main_apply T settings tasks t) (main_apply-again tasks t applied known)
      where
        conclude :
            (end : Option Ending × T.State)
            → Ends (Calm T L t) (Nothing t) end
            → (count T L end.1 ≡ count T L t)
              × ((id : String) → occ T L id end.1 ≡ occ T L id t)
              × ((end.0 ≡ none)
                  ⊎ ((plan : Plan) × (end.0 ≡ some (planned plan)) × (plan.create ≡ [])))
        conclude (none, u) c = (c.number, c.same, inl refl)
        conclude (some a, u) (c, (plan, e, nothing_new)) =
            (c.number, c.same, inr (plan, ap some e, nothing_new))
