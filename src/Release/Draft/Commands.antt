-- ===== src/Release/Draft/Commands.antt =====
-- Which commands the script runs, and in which order.
use release_ops.Common.{
  String, ◌≡◌, refl, sym, subst, ◌∙◌, ap, Bool, true, false, not, List, [], ◌∷◌, ◌++◌,
  if◌then◌else◌, arith, inl, inr, Bool-cases, ◌⊎◌,
}
use release_ops.Common.Text.{is_empty_text}
use release_ops.Release.Semver.{Sign}
use release_ops.Release.Draft.{
  World, Action, create_tag, push_tag, create_release, created, failed, Report, Plan, stop, release,
  plan, publish, execute, main,
}

module _ (locale_compare : String → String → Sign) where
  -- The commands of a release, with the tag first unless it is there.
  abbrev pub steps : Bool → String → String → String → List Action
  steps true tag title notes = create_release tag title notes ∷ []
  steps false tag title notes = create_tag tag ∷ push_tag tag ∷ create_release tag title notes ∷ []

  -- The commands that a failure leaves out.
  skipped : World → String → String → String → List Action
  skipped w tag title notes =
      if w.tag_exists tag
      then []
      else if not w.create_tag_ok
      then push_tag tag ∷ create_release tag title notes ∷ []
      else if not w.push_tag_ok
      then create_release tag title notes ∷ []
      else []

  -- How a run ends that went through the commands of a release but for the rest: it failed with some
  -- of them left, or made the release of a tag that was there or was created and pushed.
  abbrev pub Ends : World → String → Report → List Action → Type 0
  Ends w tag report rest =
      ((a : Action) × (more : List Action) × (message : String) × (rest ≡ a ∷ more)
        × (report.exit ≡ failed message))
      ⊎ ((rest ≡ [])
          × (report.exit
              ≡ (if w.create_release_ok then created else failed "Failed to create draft release"))
          × ((w.tag_exists tag ≡ true) ⊎ ((w.create_tag_ok ≡ true) × (w.push_tag_ok ≡ true))))

  publish-actions :
      (w : World) (tag title notes : String)
      → (publish locale_compare w tag title notes).actions ++ skipped w tag title notes
        ≡ steps (w.tag_exists tag) tag title notes
  unfolding publish skipped
  publish-actions w tag title notes = ground arith

  publish-Ends :
      (w : World) (tag title notes : String)
      → Ends w tag (publish locale_compare w tag title notes) (skipped w tag title notes)
  unfolding publish skipped
  publish-Ends w tag title notes = elim (Bool-cases (w.tag_exists tag)) [
    | inl there ↦ inr (rw there refl, rw there refl, inl there)
    | inr new ↦ elim (Bool-cases w.create_tag_ok) [
      | inr stuck ↦ inl (
        push_tag tag,
        create_release tag title notes ∷ [],
        "Failed to create tag",
        rw (new, stuck) refl,
        rw (new, stuck) refl,
      )
      | inl tagged ↦ elim (Bool-cases w.push_tag_ok) [
        | inr stuck ↦ inl (
          create_release tag title notes,
          [],
          "Failed to push tag",
          rw (new, tagged) (rw stuck refl),
          rw (new, tagged) (rw stuck refl),
        )
        | inl pushed ↦ inr (
          rw (new, tagged) (rw pushed refl),
          rw (new, tagged) (rw pushed refl),
          inr (tagged, pushed),
        )
      ]
    ]
  ]

  -- What a run did, against the commands of a release.
  abbrev pub Follows : World → Report → Type 0
  Follows w report =
      (report.actions ≡ [])
      ⊎ ((tag : String) × (title : String) × (notes : String) × (rest : List Action)
          × (report.actions ++ rest ≡ steps (w.tag_exists tag) tag title notes)
          × Ends w tag report rest)

  pub execute-wet :
      (w : World) (tag title notes : String)
      → w.dry_run ≡ false
      → is_empty_text w.gh_token ≡ false
      → execute locale_compare w (release tag title notes)
        ≡ publish locale_compare w tag title notes
  execute-wet w tag title notes h k = ground arith

  execute-Follows : (w : World) (p : Plan) → Follows w (execute locale_compare w p)
  execute-Follows w (stop exit) = inl refl
  execute-Follows w (release tag title notes) = elim (Bool-cases w.dry_run) [
    | inl d ↦ inl (rw d refl)
    | inr wet ↦ elim (Bool-cases (is_empty_text w.gh_token)) [
      | inl e ↦ inl (rw (wet, e) refl)
      | inr full ↦
          let published = sym (execute-wet w tag title notes wet full) in
          inr (
            tag,
            title,
            notes,
            skipped w tag title notes,
            ap (λ (r : Report). r.actions ++ skipped w tag title notes) (sym published)
                ∙ publish-actions w tag title notes,
            subst (λ (r : Report). Ends w tag r (skipped w tag title notes)) published
                (publish-Ends w tag title notes),
          )
    ]
  ]

  -- A run that changes something goes through the commands of a release in order, the tag before its
  -- push and the push before the release; it stops early only with a failure, and makes the release
  -- only of a tag that was there, or that it created and pushed.
  pub main-Follows : (w : World) → Follows w (main locale_compare w)
  unfolding main
  main-Follows w = execute-Follows w (plan locale_compare w)
