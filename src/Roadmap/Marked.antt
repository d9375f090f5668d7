-- ===== src/Roadmap/Marked.antt =====
-- ROADMAP_ID_RE of scripts/import-roadmap-phasical.mjs and scripts/audit-roadmap-intake.mjs: the
-- identifier that the first marker of a description names.
use Prim.Native.String.{[], ◌∷◌, ◌++◌}
use text.Mathlib.TextLemmas.{nil-append, cons-append}
use release_ops.Common.{
  Char, code, String, ◌≡◌, refl, sym, ap, ◌∙◌, Bool, true, false, not, ◌&&◌, ◌||◌, Option, none,
  some, if◌then◌else◌, eqb, leb, ◌>>=◌, arith,
}
use release_ops.Common.Text.{Lacks}

abbrev pub is_digit : Char → Bool
is_digit c = leb 0x30 (code c) && leb (code c) 0x39

-- `(?:-\d{2})?`
abbrev pub read_suffix : String → String
read_suffix (a ∷ b ∷ c ∷ rest) =
    if eqb (code a) b'-' && (is_digit b && is_digit c) then a ∷ b ∷ c ∷ [] else []
read_suffix _ = []

-- `E\d{2}(?:-\d{2})?`
abbrev pub read_id : String → Option String
read_id (a ∷ b ∷ c ∷ rest) =
    if eqb (code a) b'E' && (is_digit b && is_digit c)
    then some (a ∷ b ∷ c ∷ read_suffix rest)
    else none
read_id _ = none

-- What follows a text at the beginning.
unfoldable pub after : String → String → Option String
after [] s = some s
after (p ∷ ps) [] = none
after (p ∷ ps) (c ∷ s) = let rest = after ps s in if eqb (code p) (code c) then rest else none

abbrev pub marker_start : String
marker_start = "**Roadmap ID:** "

abbrev pub first_some : Option String → Option String → Option String
first_some (some id) later = some id
first_some none later = later

unfoldable pub match_here : String → Option String
unfolding after
match_here s = after marker_start s >>= read_id

-- `(description.match(ROADMAP_ID_RE) ?? [])[1]`
unfoldable pub roadmap_id_of : String → Option String
roadmap_id_of [] = none
roadmap_id_of (c ∷ s) = let later = roadmap_id_of s in first_some (match_here (c ∷ s)) later

-- A text that differs from the beginning of another, whatever follows it.
unfoldable pub differs : String → String → Bool
differs [] s = false
differs (p ∷ ps) [] = false
differs (p ∷ ps) (c ∷ s) = not (eqb (code p) (code c)) || differs ps s

after-differs : (p s x : String) → differs p s ≡ true → after p (s ++ x) ≡ none
unfolding after differs
after-differs [] s x h = cc
after-differs (p ∷ ps) [] x h = cc
after-differs (p ∷ ps) (c ∷ s) x h = rw (cons-append c s x) (ground (arith, after-differs ps s x))

-- No marker begins in the text, whatever follows it.
unfoldable pub is_unmarked : String → Bool
unfolding differs
is_unmarked [] = true
is_unmarked (c ∷ s) = differs marker_start (c ∷ s) && is_unmarked s

match_here-differs : (s x : String) → differs marker_start s ≡ true → match_here (s ++ x) ≡ none
unfolding match_here
match_here-differs s x h = ap (λ o. o >>= read_id) (after-differs marker_start s x h)

both : {a b : Bool} → a && b ≡ true → (a ≡ true) × (b ≡ true)
both h = ground arith

-- What stands in front of a description does not matter if no marker begins there.
pub roadmap_id_of-append :
    (s x : String) → is_unmarked s ≡ true → roadmap_id_of (s ++ x) ≡ roadmap_id_of x
unfolding roadmap_id_of is_unmarked
roadmap_id_of-append [] x h = rw (nil-append x)
roadmap_id_of-append (c ∷ s) x h =
    let (here, there) = both h in
    let none_here : match_here (c ∷ (s ++ x)) ≡ none =
      sym (ap match_here (cons-append c s x)) ∙ match_here-differs (c ∷ s) x here in
    rw (cons-append c s x)
      (ap (λ o. first_some o (roadmap_id_of (s ++ x))) none_here ∙ roadmap_id_of-append s x there)

-- A text with no asterisk.
pub is_unmarked_plain : (s : String) → Lacks b'*' s → is_unmarked s ≡ true
unfolding is_unmarked
is_unmarked_plain [] h = refl
is_unmarked_plain (c ∷ s) h = ground (arith, is_unmarked_plain s)
