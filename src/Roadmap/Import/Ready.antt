-- ===== src/Roadmap/Import/Ready.antt =====
-- What the import does to the status of tasks that were there before.
use release_ops.Common.{
  String, ◌==◌, eq_iff, ◌≡◌, refl, sym, ap, subst, ◌∙◌, ◌⊎◌, inl, inr, Bool, true, false, ◌||◌,
  List, [], ◌∷◌, ◌++◌, any, Option, none, some, arith, Bool-cases,
}
use release_ops.Common.Json.{Entries, lookup}
use release_ops.Roadmap.{Task, Hit}
use release_ops.Roadmap.Tracker.{
  Tracker, IsLawful, put_status, all_tasks, M, pure, Ends, Ends-bind, Ends-always, Ends-success,
  Ends-then,
}
use release_ops.Roadmap.Planning.{
  Settings, Progress, Ending, epics, leaves, truthy, create_order, existing_by_roadmap_id,
  no_progress, label_map,
}
use release_ops.Roadmap.Import.{tracked, import_all, wire, make_ready, finish, main_apply}
use release_ops.Roadmap.Import.Opening.{main_apply-Ends}
use release_ops.Roadmap.Import.Pinned.{Pinned, import_all-Pinned}

any-append : (p : Task → Bool) (xs ys : List Task) → any p (xs ++ ys) ≡ any p xs || any p ys
any-append p [] ys = refl
any-append p (x ∷ xs) ys = ground (arith, any-append p xs ys)

any-keep :
    (p : Task → Bool) (tasks : List Task)
    → any p tasks ≡ any p (epics tasks) || any p (leaves tasks)
any-keep p [] = refl
any-keep p (task ∷ tasks) = ground (arith, any-keep p tasks)

any-order :
    (id : String) (tasks : List Task)
    → any (λ u. u.id == id) tasks ≡ true
    → any (λ u. u.id == id) (create_order tasks) ≡ true
any-order id tasks h =
    any-append (λ u. u.id == id) _ (leaves tasks) ∙ sym (any-keep (λ u. u.id == id) tasks) ∙ h

module _ (T : Tracker) (L : IsLawful T) where
  -- The loop that makes tasks ready, for one task among them.
  make_ready-status :
      (known : Entries String) (id i : String) (tasks : List Task) (s : T.State)
      → tracked T known id ≡ some i
      → (L.status s i ≡ some "ready") ⊎ (any (λ u. u.id == id) tasks ≡ true)
      → Ends (λ _. Unit {0}) (λ _ t. L.status t i ≡ some "ready") (make_ready T known tasks s)
  unfolding make_ready
  make_ready-status known id i [] s e (inl h) = h
  make_ready-status known id i [] s e (inr h) = cc
  make_ready-status known id i (task ∷ rest) s e h =
      Ends-bind (λ _. Unit {0}) (λ _ t. Left rest t) _ _ _ (put (tracked T known task.id) refl)
        λ _ t left. make_ready-status known id i rest t e left
    where
      Left : List Task → T.State → Type 0
      Left tasks t = (L.status t i ≡ some "ready") ⊎ (any (λ u. u.id == id) tasks ≡ true)

      put :
          (o : Option String)
          → tracked T known task.id ≡ o
          → Ends
              (λ _. Unit {0})
              (λ _ t. Left rest t)
              ((elim o as (λ _. M T.State (Unit {0})) [
                | none ↦ pure tt
                | some j ↦ T.api (put_status j "ready")
              ])
                s)
      put none none_here = elim h [
        | inl ready ↦ inl ready
        | inr listed ↦ elim (Bool-cases (task.id == id)) [
          | inl same ↦
              let clash : none ≡ some i =
                sym none_here ∙ ap (tracked T known) ((eq_iff task.id id).0 same) ∙ e in
              absurd (cc)
          | inr other ↦ inr (ground (arith, listed, other))
        ]
      ]
      put (some j) here =
          Ends-then (λ _. Unit {0}) (λ _ t. Unit {0} × Left rest t) (λ _ t. Left rest t)
            (T.api (put_status j "ready") s)
            (Ends-success (λ _. Unit {0}) (Left rest) _ tt
              λ ok. elim (Bool-cases (j == i)) [
                | inl same ↦ inl (L.puts j "ready" i s ok ∙ rw same)
                | inr other ↦ elim h [
                  | inl ready ↦ inl (L.puts j "ready" i s ok ∙ rw other ready)
                  | inr listed ↦ elim (Bool-cases (task.id == id)) [
                    | inr apart ↦ inr (ground (arith, listed, apart))
                    | inl same ↦
                        let equal : some j ≡ some i =
                          sym here ∙ ap (tracked T known) ((eq_iff task.id id).0 same) ∙ e in
                        let clash : true ≡ false = sym ((eq_iff j i).1 (cc)) ∙ other in absurd (cc)
                  ]
                ]
              ])
            λ _ t h. h.1

  finish-status :
      (id i : String) (tasks : List Task) (p : Progress) (s : T.State)
      → tracked T p.phasical_by_roadmap_id id ≡ some i
      → any (λ u. u.id == id) tasks ≡ true
      → Ends (λ _. Unit {0}) (λ _ t. L.status t i ≡ some "ready") (finish T tasks p s)
  unfolding finish
  finish-status id i tasks p s e listed =
      Ends-bind (λ _. Unit {0}) (λ _ _. Unit {0}) _ _
        (wire T p.phasical_by_roadmap_id (leaves tasks) s) (Ends-always _)
        λ _ t _.
          Ends-bind (λ _. Unit {0}) (λ _ u. L.status u i ≡ some "ready") _ _
            (make_ready T p.phasical_by_roadmap_id tasks t)
            (make_ready-status p.phasical_by_roadmap_id id i tasks t e (inr listed))
            λ _ u ready. ready

  main_apply-status :
      (settings : Settings) (tasks : List Task) (id : String) (hit : Hit) (s : T.State)
      → settings.apply ≡ true
      → any (λ u. u.id == id) tasks ≡ true
      → lookup id (existing_by_roadmap_id [] (all_tasks (L.board s))) ≡ some hit
      → hit.id == "" ≡ false
      → Ends
          (λ _. Unit {0})
          (λ _ t. L.status t hit.id ≡ some "ready")
          (main_apply T settings tasks s)
  main_apply-status settings tasks id hit s applied listed here named =
      main_apply-Ends T L settings (λ _. Unit {0}) (λ _ t. L.status t hit.id ≡ some "ready") tasks s
        (λ _ _. tt)
        λ board labels t same c.
          let existing = existing_by_roadmap_id [] (all_tasks board) in
          let start = no_progress (label_map [] labels) in
          let found : lookup id existing ≡ some hit =
            ap (λ b. lookup id (existing_by_roadmap_id [] (all_tasks b))) same ∙ here in
          Ends-bind (λ _. Unit {0}) (λ p _. Pinned T settings existing id hit found p) _
            (finish T tasks) (import_all T settings existing (create_order tasks) start t)
            (import_all-Pinned T settings existing id hit found (create_order tasks) start t applied
              (inr (any-order id tasks listed)))
            λ p u pinned. finish-status id hit.id tasks p u (ap truthy pinned ∙ rw named) listed

  -- A run with `--apply` that ends with a plan gives every task of the roadmap that was listed before
  -- the status of a new one, whatever its status was, also of one that is done.
  pub main_apply-resets :
      (settings : Settings) (tasks : List Task) (id : String) (hit : Hit) (s t : T.State)
      (ending : Ending)
      → settings.apply ≡ true
      → any (λ u. u.id == id) tasks ≡ true
      → lookup id (existing_by_roadmap_id [] (all_tasks (L.board s))) ≡ some hit
      → hit.id == "" ≡ false
      → main_apply T settings tasks s ≡ (some ending, t)
      → L.status t hit.id ≡ some "ready"
  main_apply-resets settings tasks id hit s t ending applied listed here named run =
      subst (Ends (λ _. Unit {0}) (λ _ u. L.status u hit.id ≡ some "ready")) run
        (main_apply-status settings tasks id hit s applied listed here named)
