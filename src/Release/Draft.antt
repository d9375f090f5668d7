-- ===== src/Release/Draft.antt =====
-- scripts/ci/create-draft-release.mjs: `main` and what it runs. The commands that only read stand in
-- `World` as what they answer; those that change the repository are listed as actions, with how they
-- end in `World` too.
pub mod Laws
pub mod Commands
pub mod Rerun
use Prim.Native.String
use release_ops.Common.{
  String, ◌==◌, Bool, true, false, not, ◌&&◌, ◌||◌, List, [], ◌∷◌, map, keep, head?, Option, none,
  some, is_some, if◌then◌else◌, ◌or_else◌,
}
use release_ops.Common.Text.{trim, is_empty_text, split}
use release_ops.Release.Semver.{
  Sign, less, same, greater, Semver, parse_semver, compare_semver, strip_v,
}

pub record World : Type 0 where
  -- `--dry-run`
  pub dry_run : Bool
  -- The environment's GH_TOKEN, empty if it is not set.
  pub gh_token : String
  -- The output of `git show <ref>:VERSION`, if it succeeds.
  pub show_version : String → Option String
  -- The file VERSION, if it exists.
  pub version_file : Option String
  -- Whether `gh release view <tag>` succeeds.
  pub release_exists : String → Bool
  -- The output of `git tag --list v* --sort=-v:refname`, if it succeeds.
  pub tag_list : Option String
  -- The output of `git log` since a tag, or of all, if it succeeds.
  pub log : Option String → Option String
  -- Whether `git rev-parse --verify refs/tags/<tag>` succeeds.
  pub tag_exists : String → Bool
  -- Whether the commands that change something succeed.
  pub create_tag_ok : Bool
  pub push_tag_ok : Bool
  pub create_release_ok : Bool

pub data Action : Type 0 where
  create_tag push_tag : String → Action
  create_release : (tag title notes : String) → Action

-- How the script ends: it skips or reports with code 0, or fails with code 1.
pub data Exit : Type 0 where
  already_released not_greater dry created : Exit
  failed : String → Exit

pub record Report : Type 0 where
  pub actions : List Action
  pub exit : Exit

abbrev pub trimmed : Option String → Option String
trimmed none = none
trimmed (some s) = some (trim s)

-- `readVersionAt`, of a reference other than HEAD.
abbrev pub version_at : World → String → Option String
version_at w ref = trimmed (w.show_version ref)

-- `readVersionAt("HEAD")`, which falls back to the file; an empty version counts as missing.
abbrev pub first_text : Option String → Option String → Option String
first_text (some s) o = some (trim s)
first_text none o = trimmed o

abbrev pub nonempty : Option String → Option String
nonempty none = none
nonempty (some s) = if is_empty_text s then none else some s

unfoldable pub head_version : World → Option String
unfolding trim
head_version w = nonempty (first_text (w.show_version "HEAD") w.version_file)

-- The tags of a listing other than one.
unfoldable pub other_tags : String → String → List String
unfolding trim split
other_tags exclude listing =
    keep (λ tag. not (is_empty_text tag) && not (tag == exclude)) (map trim (split 0x0A listing))

-- `getLastTag`, of a listing that succeeded.
abbrev pub last_tag : String → String → Option String
last_tag exclude listing = head? (other_tags exclude listing)

-- `previousVersion`
abbrev pub previous_version : World → Option String → String
previous_version w none = "0.0.0"
previous_version w (some tag) = version_at w tag or_else strip_v tag

abbrev pub tag_of : String → String
tag_of version = String.◌++◌ "v" version

-- `result.stdout.trim() || "No changes."`
abbrev pub notes_of : String → String
notes_of out = if is_empty_text (trim out) then "No changes." else trim out

-- What the tests before the release come to: the script stops, or it has a release to make.
pub data Plan : Type 0 where
  stop : Exit → Plan
  release : (tag title notes : String) → Plan

abbrev pub plan_notes : String → Option String → Plan
plan_notes version none = stop (failed "Failed to read git log")
plan_notes version (some out) =
    release (tag_of version) (String.◌++◌ "Release Ops v" version) (notes_of out)

module _ (locale_compare : String → String → Sign) where
  -- `compareSemver(headVersion, previousVersion) <= 0`; both versions are parsed before.
  abbrev pub is_greater : Option Sign → Bool
  is_greater (some greater) = true
  is_greater _ = false

  abbrev pub plan_after : World → String → Option String → Plan
  plan_after w version tag =
      let previous = previous_version w tag in
      if not (is_some (parse_semver previous))
      then stop (failed "Invalid semver on last tag")
      else if not (is_greater (compare_semver locale_compare version previous))
      then stop not_greater
      else plan_notes version (w.log tag)

  abbrev pub plan_listing : World → String → Option String → Plan
  plan_listing w version none = stop (failed "Failed to list git tags")
  plan_listing w version (some listing) = plan_after w version (last_tag (tag_of version) listing)

  abbrev pub plan_version : World → Option String → Plan
  plan_version w none = stop (failed "VERSION missing at HEAD")
  plan_version w (some version) =
      if not (is_some (parse_semver version))
      then stop (failed "Invalid semver")
      else if not w.dry_run && w.release_exists (tag_of version)
      then stop already_released
      else plan_listing w version w.tag_list

  -- `main`, up to the notes.
  unfoldable pub plan : World → Plan
  unfolding head_version other_tags parse_semver compare_semver
  plan w = plan_version w (head_version w)

  -- The commands that make a release, until one of them fails.
  unfoldable pub publish : World → String → String → String → Report
  publish w tag title notes =
      let released = create_release tag title notes in
      let end = if w.create_release_ok then created else failed "Failed to create draft release" in
      if w.tag_exists tag
      then record { actions = released ∷ []; exit = end }
      else if not w.create_tag_ok
      then record { actions = create_tag tag ∷ []; exit = failed "Failed to create tag" }
      else if not w.push_tag_ok
      then record {
        actions = create_tag tag ∷ push_tag tag ∷ [];
        exit = failed "Failed to push tag";
      }
      else record { actions = create_tag tag ∷ push_tag tag ∷ released ∷ []; exit = end }

  abbrev pub execute : World → Plan → Report
  execute w (stop exit) = record { actions = []; exit = exit }
  execute w (release tag title notes) =
      if w.dry_run
      then record { actions = []; exit = dry }
      else if is_empty_text w.gh_token
      then record { actions = []; exit = failed "GH_TOKEN is required outside --dry-run mode" }
      else publish w tag title notes

  unfoldable pub main : World → Report
  unfolding plan publish
  main w = execute w (plan w)
