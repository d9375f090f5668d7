-- ===== src/Common/Text/Split.antt =====
-- `split` by one character and `join`, and how they undo each other.
use Prim.Native.Nat.{ℕ}
use Prim.Native.Char.{Char, code}
use Prim.Native.String
use Prim.Native.String.{String}
use mathlib.Core.Path.{◌≡◌, refl, sym, ap, ◌∙◌}
use mathlib.Core.Bool.{true, false}
use mathlib.Core.Logic.{inl, inr}
use mathlib.Core.List.{List, [], ◌∷◌}
use text.Mathlib.TextLemmas.{nil-append, cons-append}
use release_ops.Common.Tests.{eqb, if◌then◌else◌, Bool-cases}
use release_ops.Common.Lists.{All}
use release_ops.Common.Text.Trim.{Chars, is_empty_text}

-- Puts a character in front of the first part.
abbrev pub cons_head : Char → List String → List String
cons_head c [] = String.◌∷◌ c String.[] ∷ []
cons_head c (p ∷ ps) = String.◌∷◌ c p ∷ ps

-- `s.split(sep)` for a separator of one character, given by its code.
unfoldable pub split : ℕ → String → List String
split sep String.[] = String.[] ∷ []
split sep (String.◌∷◌ c s) =
    let rest = split sep s in if eqb (code c) sep then String.[] ∷ rest else cons_head c rest

-- `parts.join(sep)`
unfoldable pub join : String → List String → String
join sep [] = String.[]
join sep (s ∷ []) = s
join sep (s ∷ t ∷ ts) = String.◌++◌ s (String.◌++◌ sep (join sep (t ∷ ts)))

-- A text without the separator.
abbrev pub Lacks : ℕ → String → Type 0
Lacks sep = Chars (λ c. eqb (code c) sep ≡ false)

module _ (sep : ℕ) where
  cons_head-Lacks :
      (c : Char) (ps : List String)
      → eqb (code c) sep ≡ false
      → All (Lacks sep) ps
      → All (Lacks sep) (cons_head c ps)
  cons_head-Lacks c [] h hs = ((h, tt), tt)
  cons_head-Lacks c (p ∷ ps) h (hp, hs) = ((h, hp), hs)

  -- No part holds the separator.
  pub split-Lacks : (s : String) → All (Lacks sep) (split sep s)
  unfolding split
  split-Lacks String.[] = (tt, tt)
  split-Lacks (String.◌∷◌ c s) = elim (Bool-cases (eqb (code c) sep)) [
    | inl e ↦ rw e (tt, split-Lacks s)
    | inr n ↦ rw n (cons_head-Lacks c (split sep s) n (split-Lacks s))
  ]

  pub split_of_Lacks : (s : String) → Lacks sep s → split sep s ≡ s ∷ []
  unfolding split
  split_of_Lacks String.[] h = refl
  split_of_Lacks (String.◌∷◌ c s) h = rw (h.0, split_of_Lacks s h.1)

  -- Splitting at the first separator.
  pub split-append :
      (s t : String) (c : Char)
      → Lacks sep s
      → eqb (code c) sep ≡ true
      → split sep (String.◌++◌ s (String.◌∷◌ c t)) ≡ s ∷ split sep t
  unfolding split
  split-append String.[] t c h e = rw (nil-append (String.◌∷◌ c t)) (rw e)
  split-append (String.◌∷◌ d s) t c h e =
      rw (cons-append d s (String.◌∷◌ c t)) (rw (h.0, split-append s t c h.1 e))

  -- `split` undoes `join`.
  pub split-join :
      (c : Char) (s : String) (ss : List String)
      → eqb (code c) sep ≡ true
      → Lacks sep s
      → All (Lacks sep) ss
      → split sep (join (String.◌∷◌ c String.[]) (s ∷ ss)) ≡ s ∷ ss
  unfolding join
  split-join c s [] e h hs = split_of_Lacks s h
  split-join c s (t ∷ ts) e h (k, hs) =
      let rest = join (String.◌∷◌ c String.[]) (t ∷ ts) in
      let joined : String.◌++◌ (String.◌∷◌ c String.[]) rest ≡ String.◌∷◌ c rest =
        rw (cons-append c String.[] rest, nil-append rest) in
      rw joined (rw (split-append s rest c h e, split-join c t ts e k hs))

  -- A part that `join` keeps apart from the others: it has characters, and none is the separator.
  abbrev pub IsPart : String → Type 0
  IsPart s = (is_empty_text s ≡ false) × Lacks sep s

  parts_Lacks : (ss : List String) → All IsPart ss → All (Lacks sep) ss
  parts_Lacks [] h = tt
  parts_Lacks (s ∷ ss) ((filled, h), hs) = (h, parts_Lacks ss hs)

  join_empty : (t : String) → is_empty_text (join t []) ≡ true
  unfolding join
  join_empty t = refl

  join_filled :
      (t s : String) (ss : List String)
      → is_empty_text s ≡ false
      → is_empty_text (join t (s ∷ ss)) ≡ false
  unfolding join
  join_filled t s [] h = h
  join_filled t String.[] (r ∷ ss) h = absurd (cc)
  join_filled t (String.◌∷◌ c s) (r ∷ ss) h =
      rw (cons-append c s (String.◌++◌ t (join t (r ∷ ss)))) refl

  -- Parts that are joined to the same text are the same.
  pub join-injective :
      (c : Char) (ss ts : List String)
      → eqb (code c) sep ≡ true
      → All IsPart ss
      → All IsPart ts
      → join (String.◌∷◌ c String.[]) ss ≡ join (String.◌∷◌ c String.[]) ts
      → ss ≡ ts
  join-injective c [] [] e h k same = refl
  join-injective c [] (t ∷ ts) e h (k, ks) same =
      let empty : is_empty_text (join (String.◌∷◌ c String.[]) (t ∷ ts)) ≡ true =
        sym (ap is_empty_text same) ∙ join_empty (String.◌∷◌ c String.[]) in
      let filled = join_filled (String.◌∷◌ c String.[]) t ts k.0 in absurd (cc)
  join-injective c (s ∷ ss) [] e (h, hs) k same =
      let empty : is_empty_text (join (String.◌∷◌ c String.[]) (s ∷ ss)) ≡ true =
        ap is_empty_text same ∙ join_empty (String.◌∷◌ c String.[]) in
      let filled = join_filled (String.◌∷◌ c String.[]) s ss h.0 in absurd (cc)
  join-injective c (s ∷ ss) (t ∷ ts) e (h, hs) (k, ks) same =
      sym (split-join c s ss e h.1 (parts_Lacks ss hs))
      ∙ ap (split sep) same
      ∙ split-join c t ts e k.1 (parts_Lacks ts ks)
