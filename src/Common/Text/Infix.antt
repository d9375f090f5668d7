-- ===== src/Common/Text/Infix.antt =====
-- When a text begins with another or contains it.
use Prim.Native.Char.{code}
use Prim.Native.String.{String, [], ◌∷◌, ◌++◌}
use mathlib.Core.Path.{◌≡◌, refl, sym, ap, ◌∙◌}
use mathlib.Core.Bool.{true, false, ◌&&◌}
use native.Mathlib.Omega.{arith}
use text.Mathlib.TextEquality.{Char-path}
use text.Mathlib.TextLemmas.{nil-append, cons-append}
use release_ops.Common.Tests.{eqb, eqb_refl, eqb→eq}
use release_ops.Common.Text.Trim.{starts_with, includes}

pub starts_with-append : (p s : String) → starts_with (p ++ s) p ≡ true
unfolding starts_with
starts_with-append [] s = refl
starts_with-append (c ∷ p) s =
    rw (cons-append c p s) (rw (eqb_refl (code c)) (starts_with-append p s))

-- `p ++ s`, which computes where the first text is written out.
abbrev pub onto : String → String → String
onto [] s = s
onto (c ∷ p) s = c ∷ onto p s

pub append-onto : (p s : String) → p ++ s ≡ onto p s
append-onto [] s = nil-append s
append-onto (c ∷ p) s = cons-append c p s ∙ ap (λ t. c ∷ t) (append-onto p s)

-- A text is what it begins with and the rest.
pub starts_with-rest : (s p : String) → starts_with s p ≡ true → (rest : String) × (s ≡ onto p rest)
unfolding starts_with
starts_with-rest s [] h = (s, refl)
starts_with-rest [] (d ∷ p) h = absurd (cc)
starts_with-rest (c ∷ s) (d ∷ p) h =
    let same : code c ≡ code d = eqb→eq (code c) (code d) (ground arith) in
    let (rest, whole) = starts_with-rest s p (ground arith) in
    (rest, ap (λ e. e ∷ s) (Char-path c d same) ∙ ap (λ t. d ∷ t) whole)

starts_with-shorter : (s p q : String) → starts_with s (p ++ q) ≡ true → starts_with s p ≡ true
unfolding starts_with
starts_with-shorter s [] q h = refl
starts_with-shorter [] (d ∷ p) q h =
    let refused : false ≡ true = sym (ap (starts_with []) (cons-append d p q)) ∙ h in cc
starts_with-shorter (c ∷ s) (d ∷ p) q h =
    let both : (eqb (code c) (code d) && starts_with s (p ++ q)) ≡ true =
      sym (ap (starts_with (c ∷ s)) (cons-append d p q)) ∙ h in
    ground (arith, starts_with-shorter s p q)

pub includes_start : (s p : String) → starts_with s p ≡ true → includes s p ≡ true
unfolding includes
includes_start [] p h = h
includes_start (c ∷ s) p h = rw h refl

-- A text that holds another holds it with anything in front.
pub includes-append : (a s p : String) → includes s p ≡ true → includes (a ++ s) p ≡ true
unfolding includes
includes-append [] s p h = rw (nil-append s) h
includes-append (c ∷ a) s p h = rw (cons-append c a s) (ground (arith, includes-append a s p h))

-- A text that holds another holds the beginning of that.
pub includes_shorter : (s p q : String) → includes s (p ++ q) ≡ true → includes s p ≡ true
unfolding includes
includes_shorter [] p q h = starts_with-shorter [] p q h
includes_shorter (c ∷ s) p q h =
    ground (arith, starts_with-shorter (c ∷ s) p q, includes_shorter s p q)
