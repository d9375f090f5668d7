-- ===== src/Release/Draft/Rerun.antt =====
-- What a second run of the script does, after the first one pushed its tag.
use Prim.Native.String
use release_ops.Common.{
  String, ◌==◌, eq_refl, ◌≡◌, refl, sym, ◌∙◌, ap, ◌⊎◌, inl, inr, Bool, Bool-cases, true, false, not,
  ◌&&◌, List, [], ◌∷◌, map, keep, head?, Option, some, is_some, if◌then◌else◌, arith,
}
use release_ops.Common.Text.{is_empty_text, trim, split-append, Lacks, IsTrimmed}
use release_ops.Release.Semver.{Sign, parse_semver}
use release_ops.Release.Draft.{
  World, Action, create_release, already_released, created, failed, head_version, other_tags,
  tag_of, Plan, stop, release, plan_after, plan_listing, plan_version, plan, publish, execute, main,
}
use release_ops.Release.Draft.Laws.{release-of-actions, plan-release}
use release_ops.Release.Draft.Commands.{execute-wet}

-- A listing with a tag in front.
abbrev pub listed_first : String → String → String
listed_first tag listing = String.◌++◌ tag (String.◌∷◌ "\n" listing)

-- A tag that is listed first is no other tag.
other_tags-listed_first :
    (tag listing : String)
    → IsTrimmed tag
    → Lacks 0x0A tag
    → other_tags tag (listed_first tag listing) ≡ other_tags tag listing
unfolding other_tags
other_tags-listed_first tag listing t l =
    ap (λ lines. keep (λ line. not (is_empty_text line) && not (line == tag)) (map trim lines))
      (split-append 0x0A tag listing "\n" l refl)
    ∙ rw t (rw (eq_refl tag) (dropped (is_empty_text tag) _ _))
  where
    dropped : (b : Bool) (x y : List String) → (if not b && false then x else y) ≡ y
    dropped true x y = refl
    dropped false x y = refl

module _ (locale_compare : String → String → Sign) where
  -- What is planned depends on the listing only through its other tags.
  plan_listing-others :
      (w : World) (version old new : String)
      → other_tags (tag_of version) new ≡ other_tags (tag_of version) old
      → plan_listing locale_compare w version (some new)
        ≡ plan_listing locale_compare w version (some old)
  plan_listing-others w version old new others =
      ap (λ ts. plan_after locale_compare w version (head? ts)) others

  -- A later run finds the tag in the listing, and on the server, where the release may have been made
  -- and can be made otherwise. What it reads of the versions and of the log is the same.
  abbrev pub later : World → String → (exists released : String → Bool) → World
  later w listing exists released = record w {
    tag_list = some listing;
    tag_exists = exists;
    release_exists = released;
    create_release_ok = true;
  }

  plan-later :
      (w : World) (version old new : String) (exists released : String → Bool)
      → head_version w ≡ some version
      → w.tag_list ≡ some old
      → other_tags (tag_of version) new ≡ other_tags (tag_of version) old
      → released (tag_of version) ≡ w.release_exists (tag_of version)
      → plan locale_compare (later w new exists released) ≡ plan locale_compare w
  unfolding plan head_version
  plan-later w version old new exists released h l others same =
      let next = later w new exists released in
      let guard = λ (there : Bool) (p : Plan).
        if not (is_some (parse_semver version))
        then stop (failed "Invalid semver")
        else if not w.dry_run && there
        then stop already_released
        else p in
      ap (plan_version locale_compare next) h
      ∙ ap (guard (released (tag_of version))) (plan_listing-others w version old new others)
      ∙ ap (λ there. guard there (plan_listing locale_compare w version (some old))) same
      ∙ ap
          (λ o. guard (w.release_exists (tag_of version)) (plan_listing locale_compare w version o))
          (sym l)
      ∙ ap (plan_version locale_compare w) (sym h)

  plan_version-parsed :
      (w : World) (version tag title notes : String)
      → plan_version locale_compare w (some version) ≡ release tag title notes
      → is_some (parse_semver version) ≡ true
  plan_version-parsed w version tag title notes h = ground arith

  -- Where the release is there, the later run stops.
  plan-released :
      (w : World) (version new tag title notes : String) (exists released : String → Bool)
      → head_version w ≡ some version
      → w.dry_run ≡ false
      → plan locale_compare w ≡ release tag title notes
      → released (tag_of version) ≡ true
      → plan locale_compare (later w new exists released) ≡ stop already_released
  unfolding plan head_version
  plan-released w version new tag title notes exists released h wet p there =
      let parsed =
        plan_version-parsed w version tag title notes
          (ap (plan_version locale_compare w) (sym h) ∙ p) in
      ap (plan_version locale_compare (later w new exists released)) h
      ∙ rw parsed (rw (wet, there) refl)

  publish-tagged :
      (w : World) (tag title notes : String)
      → w.tag_exists tag ≡ true
      → w.create_release_ok ≡ true
      → publish locale_compare w tag title notes
        ≡ record { actions = create_release tag title notes ∷ []; exit = created }
  unfolding publish
  publish-tagged w tag title notes h k = ground arith

  same_version :
      (o : Option String) (v version : String) → o ≡ some v → o ≡ some version → v ≡ version
  same_version o v version h k = ground arith

  -- If a run begins a release, then a run after the tag was pushed ends with the release, whatever
  -- became of the first: it changes nothing where the release of the version is there, and makes that
  -- release otherwise, without tagging again. This is so if the tag is one line without blanks at its
  -- ends and now the first one of the listing, the versions and the log read the same, and a release can
  -- be made now.
  pub main-later :
      (w : World) (version old : String) (exists released : String → Bool) (a : Action)
      (rest : List Action)
      → (main locale_compare w).actions ≡ a ∷ rest
      → head_version w ≡ some version
      → w.tag_list ≡ some old
      → IsTrimmed (tag_of version)
      → Lacks 0x0A (tag_of version)
      → exists (tag_of version) ≡ true
      → let again =
          main locale_compare (later w (listed_first (tag_of version) old) exists released) in
        ((released (tag_of version) ≡ true)
          × (again ≡ record { actions = []; exit = already_released }))
        ⊎ ((released (tag_of version) ≡ false)
            × ((title : String) × (notes : String) × (again ≡ record {
              actions = create_release (tag_of version) title notes ∷ [];
              exit = created;
            })))
  unfolding main
  main-later w version old exists released a rest h head l trimmed line there =
      let new = listed_first (tag_of version) old in
      let others = other_tags-listed_first (tag_of version) old trimmed line in
      let (wet, token, (tag, title, notes, p)) =
        release-of-actions locale_compare w (plan locale_compare w) a rest h in
      let (v, out, known, t, listing, unreleased, c) =
        plan-release locale_compare w tag title notes p in
      let next = later w new exists released in
      let own = t ∙ ap tag_of (same_version (head_version w) v version known head) in
      elim (Bool-cases (released (tag_of version))) [
        | inl made ↦ inl (
          made,
          ap (execute locale_compare next)
              (plan-released w version new tag title notes exists released head wet p made),
        )
        | inr missing ↦
            let first : w.release_exists tag ≡ false = ground arith in
            let same = missing ∙ sym first ∙ ap w.release_exists own in
            inr (
              missing,
              (
                title,
                notes,
                ap (execute locale_compare next)
                      (plan-later w version old new exists released head l others same ∙ p)
                    ∙ execute-wet locale_compare next tag title notes wet token
                    ∙ publish-tagged next tag title notes (ap exists own ∙ there) refl
                    ∙ ap
                        (λ n. record {
                          actions = create_release n title notes ∷ [];
                          exit = created;
                        })
                        own,
              ),
            )
      ]
