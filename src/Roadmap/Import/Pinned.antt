-- ===== src/Roadmap/Import/Pinned.antt =====
-- The import maps a task that the listing has to the tracker's identifier.
use release_ops.Common.{
  String, ◌==◌, eq_iff, ◌≡◌, refl, sym, ap, subst, ◌∙◌, ◌⊎◌, inl, inr, true, false, List, [], ◌∷◌,
  any, Option, none, some, arith, if◌then◌else◌, Option-cases, Bool-cases,
}
use release_ops.Common.Json.{Entries, lookup, insert, lookup-insert}
use release_ops.Roadmap.{Task, Hit}
use release_ops.Roadmap.Tracker.{
  Tracker, add_label, create_label, create_task, M, after_call, ◌>>=◌, pure, Ends, Ends-bind,
  Ends-always, Ends-then,
}
use release_ops.Roadmap.Planning.{Settings, Progress, plan_create, plan_skip}
use release_ops.Roadmap.Import.{
  draft_of, ensure_label, wait_for_github_issue, finish_create, create, skip_or_create, search,
  import_task, import_all,
}

module _ (T : Tracker) (settings : Settings) where
  -- The map has one more entry, for the task.
  abbrev Maps : Task → Progress → Progress → Type 0
  Maps task p p' =
      (x : String) × (p'.phasical_by_roadmap_id ≡ insert task.id x p.phasical_by_roadmap_id)

  ensure_label-phasical :
      (name : String) (p : Progress) (s : T.State)
      → Ends
          (λ _. Unit {0})
          (λ r _. r.1.phasical_by_roadmap_id ≡ p.phasical_by_roadmap_id)
          (ensure_label T name p s)
  unfolding ensure_label
  ensure_label-phasical name p s = known (lookup name p.label_by_name)
    where
      known :
          (found : Option String)
          → Ends {A = String × Progress}
              (λ _. Unit {0})
              (λ r _. r.1.phasical_by_roadmap_id ≡ p.phasical_by_roadmap_id)
              ((elim found as (λ _. M T.State (String × Progress)) [
                | some id ↦ pure (id, p)
                | none ↦ T.api (create_label name) >>= λ id.
                    pure (id, record p { label_by_name = insert name id p.label_by_name })
              ])
                s)
      known (some id) = refl
      known none =
          Ends-bind (λ _. Unit {0}) (λ _ _. Unit {0}) _ _ (T.api (create_label name) s)
            (Ends-always _) (λ id t _. refl)

  finish_create-Maps :
      (task : Task) (p : Progress) (id : String) (s : T.State)
      → Ends (λ _. Unit {0}) (λ p' _. Maps task p p') (finish_create T settings task p id s)
  unfolding finish_create
  finish_create-Maps task p id s =
      Ends-bind (λ _. Unit {0}) (λ _ _. Unit {0}) _ _ (wait_for_github_issue T settings.polls id s)
        (Ends-always _)
        λ link t _.
          Ends-bind (λ _. Unit {0}) _ _ _ (ensure_label T task.domain _ t)
            (ensure_label-phasical task.domain _ t)
            λ (label_id, p') u same.
              Ends-bind (λ _. Unit {0}) (λ _ _. Unit {0}) _ _ (T.api (add_label label_id id) u)
                (Ends-always _) λ _ v _. (id, same)

  skip_or_create-Maps :
      (task : Task) (p : Progress) (found : Option Hit) (s : T.State)
      → settings.apply ≡ true
      → Ends (λ _. Unit {0}) (λ p' _. Maps task p p') (skip_or_create T settings task p found s)
  unfolding create
  skip_or_create-Maps task p (some hit) s applied = (hit.id, refl)
  skip_or_create-Maps task p none s applied =
      subst
        (λ b.
          Ends (λ _. Unit {0}) (λ p' _. Maps task p p')
            ((if b then create T settings task (plan_create task p) else pure (plan_create task p))
              s))
        (sym applied)
        (Ends-bind (λ _. Unit {0}) (λ _ _. Unit {0}) _ _
          (T.api (create_task (draft_of T settings task (plan_create task p))) s) (Ends-always _)
          λ id t _. finish_create-Maps task (plan_create task p) id t)

  module _ (existing : Entries Hit) (id : String) (hit : Hit)
      (here : lookup id existing ≡ some hit) where
    abbrev pub Pinned : Progress → Type 0
    Pinned p = lookup id p.phasical_by_roadmap_id ≡ some hit.id

    -- The task itself is mapped, and what was mapped stays.
    Pins : Task → Progress → Progress → Type 0
    Pins task p p' = (Pinned p ⊎ (task.id == id ≡ true)) → Pinned p'

    Maps-Pins :
        (task : Task) (p p' : Progress) → task.id == id ≡ false → Maps task p p' → Pins task p p'
    unfolding Pins
    Maps-Pins task p p' other (x, e) (inl before) =
        ap (lookup id) e ∙ lookup-insert task.id id x p.phasical_by_roadmap_id ∙ rw other before
    Maps-Pins task p p' other (x, e) (inr same) =
        let clash : true ≡ false = sym same ∙ other in absurd (cc)

    skip-Pins :
        (task : Task) (known : Hit) (p : Progress)
        → lookup task.id existing ≡ some known
        → Pins task p (plan_skip settings task known p)
    unfolding Pins
    skip-Pins task known p e h = elim (Bool-cases (task.id == id)) [
      | inl same ↦
          let one : some known ≡ some hit =
            sym e ∙ ap (λ k. lookup k existing) ((eq_iff task.id id).0 same) ∙ here in
          lookup-insert task.id id known.id p.phasical_by_roadmap_id ∙ rw same (cc)
      | inr other ↦ Maps-Pins task p (plan_skip settings task known p) other (known.id, refl) h
    ]

    import_task-Pins :
        (task : Task) (p : Progress) (s : T.State)
        → settings.apply ≡ true
        → Ends (λ _. Unit {0}) (λ p' _. Pins task p p') (import_task T settings existing task p s)
    unfolding import_task
    import_task-Pins task p s applied = elim (Option-cases (lookup task.id existing)) [
      | inr (known, e) ↦ rw e (skip-Pins task known p e)
      | inl unknown ↦ rw unknown (
          subst
            (λ b.
              Ends (λ _. Unit {0}) (λ p' _. Pins task p p')
                (after_call (skip_or_create T settings task p)
                  ((if b then search T task.id else pure none) s)))
            (sym applied)
            (Ends-bind (λ _. Unit {0}) (λ _ _. Unit {0}) (λ p' _. Pins task p p')
              (skip_or_create T settings task p) (search T task.id s) (Ends-always _)
              λ found t _.
                Ends-then (λ _. Unit {0}) (λ p' _. Maps task p p') (λ p' _. Pins task p p')
                  (skip_or_create T settings task p found t)
                  (skip_or_create-Maps task p found t applied)
                  λ p' u maps. Maps-Pins task p p' (other task unknown) maps))
    ]
      where
        other : (task : Task) → lookup task.id existing ≡ none → task.id == id ≡ false
        other task unknown = elim (Bool-cases (task.id == id)) [
          | inr apart ↦ apart
          | inl same ↦
              let clash : none ≡ some hit =
                sym unknown ∙ ap (λ k. lookup k existing) ((eq_iff task.id id).0 same) ∙ here in
              absurd (cc)
        ]

    pub import_all-Pinned :
        (todo : List Task) (p : Progress) (s : T.State)
        → settings.apply ≡ true
        → Pinned p ⊎ (any (λ u. u.id == id) todo ≡ true)
        → Ends (λ _. Unit {0}) (λ p' _. Pinned p') (import_all T settings existing todo p s)
    unfolding import_all Pins
    import_all-Pinned [] p s applied (inl h) = h
    import_all-Pinned [] p s applied (inr h) = cc
    import_all-Pinned (task ∷ todo) p s applied h =
        Ends-bind (λ _. Unit {0}) (λ p' _. Pins task p p') (λ p' _. Pinned p') _
          (import_task T settings existing task p s) (import_task-Pins task p s applied)
          λ p' t pins. import_all-Pinned todo p' t applied (next p' pins h)
      where
        next :
            (p' : Progress)
            → Pins task p p'
            → Pinned p ⊎ (any (λ u. u.id == id) (task ∷ todo) ≡ true)
            → Pinned p' ⊎ (any (λ u. u.id == id) todo ≡ true)
        next p' pins (inl before) = inl (pins (inl before))
        next p' pins (inr listed) = elim (Bool-cases (task.id == id)) [
          | inl same ↦ inl (pins (inr same))
          | inr apart ↦ inr (ground (arith, listed, apart))
        ]
