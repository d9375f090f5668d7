-- ===== src/Release/Tests.antt =====
-- Examples for scripts/ci/create-draft-release.mjs.
use release_ops.Common.{
  ℕ, String, ◌≡◌, refl, true, false, List, [], ◌∷◌, none, some, if◌then◌else◌, ◌==◌, ◌⊎◌,
}
use release_ops.Common.Text.{IsTrimmed, trim}
use release_ops.Release.Semver.{
  Semver, Sign, same, greater, parse_semver, compare_parsed, compare_prerelease, compare_semver,
}
use release_ops.Release.Semver.Reading.{parse_semver-version}
use release_ops.Release.Draft.{
  World, Action, create_tag, push_tag, create_release, already_released, created, main, plan,
  publish, head_version, last_tag, previous_version, tag_of,
}
use release_ops.Release.Draft.Rerun.{listed_first, later, main-later}
use release_ops.Release.Draft.Laws.{main-changes}
use release_ops.Release.Draft.Commands.{Follows, main-Follows}

-- An order in which all labels are alike.
abbrev alike : String → String → Sign
alike a b = same

abbrev version : ℕ → String → Semver
version n label = record { major = 1; minor = n; patch = 0; prerelease = label; build = "" }

-- No label is greater than another in it.
alike_trans : (a b c : String) → alike a b ≡ greater → alike b c ≡ greater → alike a c ≡ greater
alike_trans a b c h k = h

three_two : compare_parsed alike (version 3 "") (version 2 "") ≡ greater
unfolding compare_parsed
three_two = refl

release_candidate : compare_parsed alike (version 2 "") (version 2 "rc.1") ≡ greater
unfolding compare_parsed compare_prerelease
release_candidate = refl

parse_semver-version_example :
    parse_semver " v1.20.3-rc.1 "
    ≡ some (record { major = 1; minor = 20; patch = 3; prerelease = "rc.1"; build = "" })
unfolding trim
parse_semver-version_example =
    parse_semver-version " v1.20.3-rc.1 " "1" "20" "3" (some "rc.1") refl (refl, (refl, tt))
      (refl, (refl, (refl, tt))) (refl, (refl, tt)) (refl, (refl, (refl, (refl, (refl, tt)))))

-- A repository at version 1.1.0, whose last release is 1.0.0, and where no release can be made.
abbrev offline : World
offline = record {
  dry_run = false;
  gh_token = "t";
  show_version = λ ref. if ref == "HEAD" then some "1.1.0\n" else some "1.0.0\n";
  version_file = none;
  release_exists = λ tag. false;
  tag_list = some "v1.0.0\n";
  log = λ tag. some "fix (abc)";
  tag_exists = λ tag. false;
  create_tag_ok = true;
  push_tag_ok = true;
  create_release_ok = false;
}

abbrev title : String
title = "Release Ops v1.1.0"

abbrev offline_actions : List Action
offline_actions =
    create_tag "v1.1.0" ∷ push_tag "v1.1.0" ∷ create_release "v1.1.0" title "fix (abc)" ∷ []

offline-main : (main alike offline).actions ≡ offline_actions
unfolding main plan publish
offline-main = refl

main-changes_example :
    (offline.dry_run ≡ false)
    × (false ≡ false)
    × ((v : String) × (listing : String) × (head_version offline ≡ some v)
        × (offline.tag_list ≡ some listing)
        × (offline.release_exists (tag_of v) ≡ false)
        × (compare_semver alike v (previous_version offline (last_tag (tag_of v) listing))
            ≡ some greater))
main-changes_example =
    main-changes alike offline (create_tag "v1.1.0")
      (push_tag "v1.1.0" ∷ create_release "v1.1.0" title "fix (abc)" ∷ []) offline-main

main-Follows_example : Follows alike offline (main alike offline)
main-Follows_example = main-Follows alike offline

offline-head : head_version offline ≡ some "1.1.0"
unfolding head_version
offline-head = refl

offline_tag-IsTrimmed : IsTrimmed (tag_of "1.1.0")
unfolding trim
offline_tag-IsTrimmed = refl

-- The listing of the later run has the tag that the first run pushed; the release is missing.
main-later_example :
    let again =
      main alike
        (later alike offline (listed_first "v1.1.0" "v1.0.0\n") (λ tag. true) (λ tag. false)) in
    ((false ≡ true) × (again ≡ record { actions = []; exit = already_released }))
    ⊎ ((false ≡ false)
        × ((name : String) × (notes : String) × (again
              ≡ record { actions = create_release "v1.1.0" name notes ∷ []; exit = created })))
main-later_example =
    main-later alike offline "1.1.0" "v1.0.0\n" (λ tag. true) (λ tag. false) (create_tag "v1.1.0")
      (push_tag "v1.1.0" ∷ create_release "v1.1.0" title "fix (abc)" ∷ []) offline-main offline-head
      refl offline_tag-IsTrimmed (refl, (refl, (refl, (refl, (refl, (refl, tt)))))) refl
