-- ===== src/Roadmap/Import/Opening.antt =====
-- What a run with `--apply` knows of the tracker when its loop begins.
use release_ops.Common.{String, ◌≡◌, refl, ap, ◌∙◌, List, [], Option}
use release_ops.Roadmap.{Task}
use release_ops.Roadmap.Tracker.{
  Tracker, IsLawful, Board, Label, occurrences, all_tasks, instance_status, list_tasks, list_labels,
  after_call, Ends, Ends-bind, Ends-crash, Ends-state,
}
use release_ops.Roadmap.Planning.{
  Settings, Ending, create_order, existing_by_roadmap_id, label_map, no_progress,
}
use release_ops.Roadmap.Import.{import_all, finish, main_apply}
use release_ops.Roadmap.Import.Calm.{occ, Calm, Calm-api, Calm-trans, list-Ends}

module _ (T : Tracker) (L : IsLawful T) (settings : Settings) where
  -- The rest of the run, from its loop on.
  abbrev pub loop : List Task → Board → List Label → T.State → Option Ending × T.State
  loop tasks board labels s = after_call (finish T tasks) (
      import_all T settings (existing_by_roadmap_id [] (all_tasks board)) (create_order tasks)
        (no_progress (label_map [] labels)) s)

  -- To show something of a run it is enough to show it of a failure before the loop, and of the loop
  -- with a listing of the tracker.
  pub main_apply-Ends :
      (P : T.State → Type 0) (Q : Ending → T.State → Type 0) (tasks : List Task) (s : T.State)
      → ((t : T.State) → Calm T L s t → P t)
      → ((board : Board) (labels : List Label) (t : T.State)
          → board ≡ L.board s
          → Calm T L s t
          → Ends P Q (loop tasks board labels t))
      → Ends P Q (main_apply T settings tasks s)
  unfolding main_apply
  main_apply-Ends P Q tasks s early late =
      let c₀ = Calm-api T L instance_status s refl in
      Ends-bind P (λ _ t. Calm T L s t × (t ≡ (T.api instance_status s).1)) Q _
        (T.api instance_status s)
        (Ends-state P (λ t. Calm T L s t × (t ≡ (T.api instance_status s).1)) _ (early _ c₀)
          (c₀, refl))
        λ _ t (c, here).
          Ends-bind P (λ b v. Calm T L t v × (b ≡ L.board t)) Q _ (T.api list_tasks t)
            (Ends-crash (Calm T L t) P (λ b v. Calm T L t v × (b ≡ L.board t)) (T.api list_tasks t)
              (list-Ends T L t) λ v d. early v (Calm-trans T L s t v c d))
            λ board v (d, same).
              let c₁ = Calm-trans T L s t v c d in
              let e₀ = Calm-trans T L s v _ c₁ (Calm-api T L list_labels v refl) in
              Ends-bind P (λ _. Calm T L s) Q _ (T.api list_labels v)
                (Ends-state P (Calm T L s) _ (early _ e₀) e₀)
                λ labels w e. late board labels w (same ∙ ap L.board here ∙ L.unmoved s) e

pub listed-occ :
    (T : Tracker) (L : IsLawful T) (board : Board) (s : T.State) (id : String)
    → board ≡ L.board s
    → occurrences id (all_tasks board) ≡ occ T L id s
listed-occ T L board s id e = ap (λ b. occurrences id (all_tasks b)) e
