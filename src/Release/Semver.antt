-- ===== src/Release/Semver.antt =====
-- scripts/ci/create-draft-release.mjs: `parseSemver` and `compareSemver`. A number of a version is
-- exact here; the script's is a double, which is exact below 2 ^ 53. A comparison is the sign of the
-- number that the script returns, and `locale_compare` that of `localeCompare`.
pub mod Order
pub mod Reading
use Prim.Native.String.{[], ◌∷◌}
use release_ops.Common.{
  ℕ, ◌+◌, ◌-◌, ◌*◌, Char, code, String, Bool, true, false, not, ◌&&◌, ◌||◌, Option, none, some,
  if◌then◌else◌, eqb, ltb, leb, ◌>>=◌,
}
use release_ops.Common.Text.{trim, is_empty_text}

pub record Semver : Type 0 where
  pub major : ℕ
  pub minor : ℕ
  pub patch : ℕ
  pub prerelease : String
  pub build : String

abbrev pub is_digit : Char → Bool
is_digit c = leb 0x30 (code c) && leb (code c) 0x39

-- `[0-9A-Za-z.-]`
abbrev pub is_label : Char → Bool
is_label c =
    let n = code c in
    is_digit c
    || ((leb 0x41 n && leb n 0x5A) || ((leb 0x61 n && leb n 0x7A) || (eqb n 0x2E || eqb n 0x2D)))

-- `s.replace(/^v/, "")`
abbrev pub strip_v : String → String
strip_v [] = []
strip_v (c ∷ s) = if eqb (code c) b'v' then s else c ∷ s

-- The number that the leading digits spell, and the rest.
unfoldable pub digits : ℕ → String → ℕ × String
digits n [] = (n, [])
digits n (c ∷ s) =
    let rest = digits (n * 10 + (code c - 0x30)) s in if is_digit c then rest else (n, c ∷ s)

-- `(\d+)`
unfoldable pub read_number : String → Option (ℕ × String)
unfolding digits
read_number [] = none
read_number (c ∷ s) = if is_digit c then some (digits 0 (c ∷ s)) else none

-- `mark`, one character.
abbrev pub read_mark : ℕ → String → Option String
read_mark mark [] = none
read_mark mark (c ∷ s) = if eqb (code c) mark then some s else none

-- The leading characters of a label, and the rest.
unfoldable pub labels : String → String × String
labels [] = ([], [])
labels (c ∷ s) =
    let (taken, rest) = labels s in if is_label c then (c ∷ taken, rest) else ([], c ∷ s)

-- The label behind a mark, if one is there: a label that is empty is no match.
abbrev pub some_label : String × String → Option (String × String)
some_label (taken, rest) = if is_empty_text taken then none else some (taken, rest)

-- `(?:-([0-9A-Za-z.-]+))?`, for a mark; without the mark the label is empty. As a label takes every
-- character that it can and the mark stands in nothing that follows, no other match is missed.
unfoldable pub read_label : ℕ → String → Option (String × String)
unfolding labels
read_label mark [] = some ([], [])
read_label mark (c ∷ s) = if eqb (code c) mark then some_label (labels s) else some ([], c ∷ s)

unfoldable pub parse_normalized : String → Option Semver
unfolding read_number read_label
parse_normalized s = do
  (major, s) ← read_number s
  s ← read_mark 0x2E s
  (minor, s) ← read_number s
  s ← read_mark 0x2E s
  (patch, s) ← read_number s
  (prerelease, s) ← read_label 0x2D s
  (build, s) ← read_label 0x2B s
  if is_empty_text s
      then some (record {
        major = major;
        minor = minor;
        patch = patch;
        prerelease = prerelease;
        build = build;
      })
      else none

-- `parseSemver`; nothing stands for the error it throws.
unfoldable pub parse_semver : String → Option Semver
unfolding parse_normalized trim
parse_semver version = parse_normalized (strip_v (trim version))

pub data Sign : Type 0 where
  less same greater : Sign

-- `a > b ? 1 : -1`, for numbers that differ.
abbrev pub sign_of : ℕ → ℕ → Sign
sign_of a b = if ltb b a then greater else less

module _ (locale_compare : String → String → Sign) where
  unfoldable pub compare_prerelease : String → String → Sign
  compare_prerelease a b =
      if is_empty_text a && not (is_empty_text b)
      then greater
      else if not (is_empty_text a) && is_empty_text b
      then less
      else if not (is_empty_text a) && not (is_empty_text b)
      then locale_compare a b
      else same

  -- `compareSemver`, after both versions are parsed.
  unfoldable pub compare_parsed : Semver → Semver → Sign
  unfolding compare_prerelease
  compare_parsed a b =
      if not (eqb a.major b.major)
      then sign_of a.major b.major
      else if not (eqb a.minor b.minor)
      then sign_of a.minor b.minor
      else if not (eqb a.patch b.patch)
      then sign_of a.patch b.patch
      else compare_prerelease a.prerelease b.prerelease

  unfoldable pub compare_semver : String → String → Option Sign
  unfolding compare_parsed parse_semver
  compare_semver left right = do
    a ← parse_semver left
    b ← parse_semver right
    some (compare_parsed a b)
