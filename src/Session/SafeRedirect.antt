-- ===== src/Session/SafeRedirect.antt =====
-- apps/web/lib/auth/safe-redirect.ts. `new URL(value, base)` is the platform's parser, a parameter
-- here: `none` where it throws.
use Prim.Native.String
use release_ops.Common.{
  String, ◌==◌, eq_iff, ◌≡◌, ◌⊎◌, inl, inr, Bool, true, false, not, ◌||◌, Option, none, some,
  if◌then◌else◌, arith, Option-cases, Bool-cases,
}
use release_ops.Common.Text.{starts_with, is_empty_text}

abbrev pub internal_base : String
internal_base = "http://internal.invalid"

pub record Resolved : Type 0 where
  pub origin : String
  pub pathname : String
  pub search : String
  pub hash : String

abbrev pub UrlParser : Type 0
UrlParser = String → String → Option Resolved

abbrev pub shown : Resolved → String
shown r = String.◌++◌ r.pathname (String.◌++◌ r.search r.hash)

-- The part after the tests on the text.
unfoldable pub resolved_path : Option Resolved → String
resolved_path none = "/"
resolved_path (some r) = if not (r.origin == internal_base) then "/" else shown r

abbrev pub is_refused : String → Bool
is_refused value =
    (is_empty_text value || not (starts_with value "/") || starts_with value "//")
    || starts_with value "/\\"

unfoldable pub safe_redirect_path : UrlParser → Option String → String
unfolding resolved_path
safe_redirect_path parse none = "/"
safe_redirect_path parse (some value) =
    if is_refused value then "/" else resolved_path (parse value internal_base)

-- A result other than "/" is the path, the query and the fragment of the value as the platform
-- resolves it on the internal origin; the value begins with one slash, and no second slash or
-- backslash follows.
pub safe_redirect_path-origin :
    (parse : UrlParser) (value : String)
    → (safe_redirect_path parse (some value) ≡ "/")
      ⊎ ((r : Resolved) × (parse value internal_base ≡ some r)
          × (r.origin ≡ internal_base)
          × (safe_redirect_path parse (some value) ≡ shown r)
          × (starts_with value "/" ≡ true)
          × (starts_with value "//" ≡ false)
          × (starts_with value "/\\" ≡ false))
unfolding safe_redirect_path
safe_redirect_path-origin parse value = elim (Option-cases (parse value internal_base)) [
  | inl e ↦ inl (rw e (ground arith))
  | inr (r, e) ↦ elim (Bool-cases (is_refused value)) [
    | inl refused ↦ inl (rw refused)
    | inr fine ↦ elim (Bool-cases (r.origin == internal_base)) [
      | inr outside ↦ inl (rw (fine, e) (rw outside))
      | inl inside ↦ inr (
        r,
        e,
        (eq_iff r.origin internal_base).0 inside,
        rw (fine, e) (rw inside),
        ground arith,
        ground arith,
        ground arith,
      )
    ]
  ]
]
