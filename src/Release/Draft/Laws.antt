-- ===== src/Release/Draft/Laws.antt =====
-- When the script makes a release.
use release_ops.Common.{
  String, ◌≡◌, refl, sym, Bool, true, false, not, ◌&&◌, List, ◌∷◌, Option, none, some, arith,
}
use release_ops.Common.Text.{is_empty_text}
use release_ops.Release.Semver.{Sign, greater, compare_semver}
use release_ops.Release.Draft.{
  World, Action, head_version, last_tag, previous_version, tag_of, Plan, stop, release, plan_notes,
  is_greater, plan_after, plan_listing, plan_version, plan, execute, main,
}

module _ (locale_compare : String → String → Sign) where
  plan_notes-release :
      (version : String) (out : Option String) (tag title notes : String)
      → plan_notes version out ≡ release tag title notes
      → tag ≡ tag_of version
  plan_notes-release version out tag title notes h = ground arith

  is_greater-some : (o : Option Sign) → is_greater locale_compare o ≡ true → o ≡ some greater
  is_greater-some o h = ground arith

  plan_after-release :
      (w : World) (version : String) (last : Option String) (tag title notes : String)
      → plan_after locale_compare w version last ≡ release tag title notes
      → (tag ≡ tag_of version)
        × (compare_semver locale_compare version (previous_version w last) ≡ some greater)
  plan_after-release w version last tag title notes h =
      (ground arith, is_greater-some _ (ground arith))

  plan_listing-release :
      (w : World) (version : String) (listing : Option String) (tag title notes : String)
      → plan_listing locale_compare w version listing ≡ release tag title notes
      → (out : String) × (listing ≡ some out)
        × (tag ≡ tag_of version)
        × (compare_semver locale_compare version
              (previous_version w (last_tag (tag_of version) out))
            ≡ some greater)
  plan_listing-release w version none tag title notes h = absurd (cc)
  plan_listing-release w version (some out) tag title notes h =
      let (t, c) = plan_after-release w version _ tag title notes h in (out, refl, t, c)

  plan_version-release :
      (w : World) (version : Option String) (tag title notes : String)
      → plan_version locale_compare w version ≡ release tag title notes
      → (v : String) × (version ≡ some v)
        × ((not w.dry_run && w.release_exists (tag_of v)) ≡ false)
        × (plan_listing locale_compare w v w.tag_list ≡ release tag title notes)
  plan_version-release w none tag title notes h = absurd (cc)
  plan_version-release w (some v) tag title notes h = (v, refl, ground arith, ground arith)

  -- The release that is planned: that of the version at HEAD, which is greater than the last one.
  pub plan-release :
      (w : World) (tag title notes : String)
      → plan locale_compare w ≡ release tag title notes
      → (version : String) × (listing : String) × (head_version w ≡ some version)
        × (tag ≡ tag_of version)
        × (w.tag_list ≡ some listing)
        × ((not w.dry_run && w.release_exists tag) ≡ false)
        × (compare_semver locale_compare version (previous_version w (last_tag tag listing))
            ≡ some greater)
  unfolding plan
  plan-release w tag title notes h =
      let (v, head, unreleased, listed) =
        plan_version-release w (head_version w) tag title notes h in
      let (out, listing, t, c) = plan_listing-release w v w.tag_list tag title notes listed in
      (v, out, head, t, listing, rw t unreleased, rw t c)

  -- Whether a list of actions changes something.
  pub release-of-actions :
      (w : World) (p : Plan) (a : Action) (rest : List Action)
      → (execute locale_compare w p).actions ≡ a ∷ rest
      → (w.dry_run ≡ false)
        × (is_empty_text w.gh_token ≡ false)
        × ((tag : String) × (title : String) × (notes : String) × (p ≡ release tag title notes))
  release-of-actions w (stop exit) a rest h = absurd (cc)
  release-of-actions w (release tag title notes) a rest h =
      (ground arith, ground arith, (tag, title, notes, refl))

  unskipped : (a b : Bool) → a ≡ false → (not a && b) ≡ false → b ≡ false
  unskipped a b h k = ground arith

  -- The script changes something only outside a dry run, with a token, and for a version at HEAD that
  -- has no release yet and is greater than that of the newest other tag.
  pub main-changes :
      (w : World) (a : Action) (rest : List Action)
      → (main locale_compare w).actions ≡ a ∷ rest
      → (w.dry_run ≡ false)
        × (is_empty_text w.gh_token ≡ false)
        × ((version : String) × (listing : String) × (head_version w ≡ some version)
            × (w.tag_list ≡ some listing)
            × (w.release_exists (tag_of version) ≡ false)
            × (compare_semver locale_compare version
                  (previous_version w (last_tag (tag_of version) listing))
                ≡ some greater))
  unfolding main
  main-changes w a rest h =
      let (wet, token, (tag, title, notes, p)) =
        release-of-actions w (plan locale_compare w) a rest h in
      let (v, out, head, t, listing, unreleased, c) = plan-release w tag title notes p in
      (
        wet,
        token,
        (v, out, head, listing, unskipped w.dry_run _ wet (rw (sym t) unreleased), rw (sym t) c),
      )
