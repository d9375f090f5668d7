-- ===== src/Roadmap/Intake/Guarded.antt =====
-- The import behind the audit of the intake.
use release_ops.Common.{
  String, ◌≡◌, ◌≤◌, refl, Bool, true, not, inl, inr, List, [], ◌∷◌, is_empty, Bool-cases,
  All-append, All-keep,
}
use release_ops.Roadmap.{Task}
use release_ops.Roadmap.Tracker.{Tracker, IsLawful}
use release_ops.Roadmap.Planning.{Settings, epics, leaves, create_order, is_leaf}
use release_ops.Roadmap.Import.{main}
use release_ops.Roadmap.Import.Calm.{occ}
use release_ops.Roadmap.Import.Once.{main_once}
use release_ops.Roadmap.Import.Plain.{IsPlain}
use release_ops.Roadmap.Import.Unique.{AreMarked, AreDistinct}
use release_ops.Roadmap.Intake.{Roadmap, blockers, audited_import}
use release_ops.Roadmap.Intake.Laws.{blockers-IsReady}

none_of_empty : (messages : List String) → is_empty messages ≡ true → messages ≡ []
none_of_empty [] h = refl
none_of_empty (m ∷ ms) h = absurd (cc)

create_order-AreMarked : (tasks : List Task) → AreMarked tasks → AreMarked (create_order tasks)
create_order-AreMarked tasks h =
    All-append _ (epics tasks) (leaves tasks) (All-keep _ (λ t. not (is_leaf t)) tasks h)
      (All-keep _ is_leaf tasks h)

module _ (T : Tracker) (L : IsLawful T) (settings : Settings) (plain : IsPlain settings) where
  -- An import that runs the audit first, whether it is refused, succeeds or fails at some call, leaves no
  -- two tasks with one marker if there were none before and the identifiers of the roadmap are distinct.
  -- That the descriptions have the right markers is what the audit finds out.
  pub audited_import_once :
      (r : Roadmap) (spec_passed : Bool) (s : T.State)
      → AreDistinct (create_order r.tasks)
      → ((id : String) → occ T L id s ≤ 1)
      → (id : String) → occ T L id (audited_import T settings r spec_passed s).1 ≤ 1
  unfolding main
  audited_import_once r spec_passed s distinct u id =
      elim (Bool-cases (is_empty (blockers r spec_passed))) [
        | inl passed ↦
            let ready = (blockers-IsReady r spec_passed).0 (none_of_empty _ passed) in
            main_once T L settings plain (is_empty (blockers r spec_passed)) r.tasks s
              (create_order-AreMarked r.tasks ready.marked) distinct u id
        | inr failed ↦ rw failed (u id)
      ]
