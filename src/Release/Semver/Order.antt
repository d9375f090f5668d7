-- ===== src/Release/Semver/Order.antt =====
-- The order of versions.
use release_ops.Common.{String, ◌≡◌, arith}
use release_ops.Release.Semver.{
  Semver, Sign, less, same, greater, compare_prerelease, compare_parsed,
}

abbrev pub flip : Sign → Sign
flip less = greater
flip same = same
flip greater = less

module _ (locale_compare : String → String → Sign) where
  compare_prerelease-flip :
      ((a b : String) → locale_compare b a ≡ flip (locale_compare a b))
      → (a b : String)
      → compare_prerelease locale_compare b a ≡ flip (compare_prerelease locale_compare a b)
  unfolding compare_prerelease
  compare_prerelease-flip h a b = ground (arith, h a b)

  compare_prerelease_trans :
      ((a b c : String)
        → locale_compare a b ≡ greater
        → locale_compare b c ≡ greater
        → locale_compare a c ≡ greater)
      → (a b c : String) → compare_prerelease locale_compare a b ≡ greater
      → compare_prerelease locale_compare b c ≡ greater
      → compare_prerelease locale_compare a c ≡ greater
  unfolding compare_prerelease
  compare_prerelease_trans t a b c h k = ground (arith, t a b c)

  -- Comparing two versions the other way round flips the result, if it does for prereleases.
  compare_parsed-flip :
      ((a b : String) → locale_compare b a ≡ flip (locale_compare a b))
      → (v w : Semver)
      → compare_parsed locale_compare w v ≡ flip (compare_parsed locale_compare v w)
  unfolding compare_parsed
  compare_parsed-flip h v w = ground (arith, compare_prerelease-flip h v.prerelease w.prerelease)

  -- A version that is greater than another is greater than all that the other is greater than, if
  -- that holds of prereleases.
  compare_parsed_trans :
      ((a b c : String)
        → locale_compare a b ≡ greater
        → locale_compare b c ≡ greater
        → locale_compare a c ≡ greater)
      → (u v w : Semver) → compare_parsed locale_compare u v ≡ greater
      → compare_parsed locale_compare v w ≡ greater
      → compare_parsed locale_compare u w ≡ greater
  unfolding compare_parsed
  compare_parsed_trans t u v w h k =
      ground (arith, compare_prerelease_trans t u.prerelease v.prerelease w.prerelease)
