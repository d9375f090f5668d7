-- ===== src/Roadmap/Markers.antt =====
-- The markers that tie a task of the tracker to the roadmap.
use Prim.Native.String.{◌++◌}
use release_ops.Common.{
  String, ◌≡◌, refl, sym, subst, ap, ◌⊎◌, inl, inr, true, false, List, [], ◌∷◌, any, find,
  ◌or_else◌, none, some, arith, Bool-cases, Option-cases, find_passes,
}
use text.Mathlib.TextLemmas.{append_assoc, append-nil}
use release_ops.Common.Text.{
  includes, starts_with, includes_start, includes-append, includes_shorter, starts_with-append,
}
use release_ops.Roadmap.{
  marker, with_roadmap_id, Options, epic, epic_options, leaf, describe, Hit, has_marker, first,
  or_first, search_by_roadmap_id,
}

includes_self : (s : String) → includes s s ≡ true
includes_self s =
    includes_start s s
      (subst (λ t. starts_with t s ≡ true) (append-nil s) (starts_with-append s ""))

with_roadmap_id-marked : (id d : String) → includes (with_roadmap_id id d) (marker id) ≡ true
unfolding with_roadmap_id
with_roadmap_id-marked id d = elim (Bool-cases (includes d (marker id))) [
  | inl there ↦ rw there there
  | inr new ↦ rw new (
      includes-append d _ (marker id)
        (includes-append "\n\n---\n\n" (marker id) (marker id) (includes_self (marker id))))
]

with_roadmap_id_stable : (id d : String) → includes d (marker id) ≡ true → with_roadmap_id id d ≡ d
unfolding with_roadmap_id
with_roadmap_id_stable id d h = rw h refl

-- Every task of the roadmap, epic or leaf, holds its own marker, whatever its options are, and a
-- second marking changes nothing.
pub description-marked :
    (id parent title domain : String) (o : Options)
    → (includes (epic id title domain o).description (marker id) ≡ true)
      × (includes (leaf id parent title domain o).description (marker id) ≡ true)
      × (with_roadmap_id id (epic id title domain o).description
          ≡ (epic id title domain o).description)
      × (with_roadmap_id id (leaf id parent title domain o).description
          ≡ (leaf id parent title domain o).description)
unfolding epic leaf
description-marked id parent title domain o =
    let of_epic = with_roadmap_id-marked id (o.description or_else describe (epic_options o)) in
    let of_leaf = with_roadmap_id-marked id (describe o) in
    (of_epic, of_leaf, with_roadmap_id_stable id _ of_epic, with_roadmap_id_stable id _ of_leaf)

find-none-any :
    (id : String) (hits : List Hit)
    → find (has_marker id) hits ≡ none
    → any (has_marker id) hits ≡ false
find-none-any id [] h = refl
find-none-any id (x ∷ hits) h = ground (arith, find-none-any id hits)

-- The search finds nothing exactly if there are no results. It prefers a hit that holds the marker; if
-- no hit does, it returns the first one.
pub search_by_roadmap_id-cases :
    (id : String) (results : List Hit)
    → ((results ≡ []) × (search_by_roadmap_id id results ≡ none))
      ⊎ ((hit : Hit) × (search_by_roadmap_id id results ≡ some hit)
          × ((has_marker id hit ≡ true)
              ⊎ ((any (has_marker id) results ≡ false) × (first results ≡ some hit))))
unfolding search_by_roadmap_id
search_by_roadmap_id-cases id [] = inl (refl, refl)
search_by_roadmap_id-cases id (x ∷ hits) = elim (Option-cases (find (has_marker id) (x ∷ hits))) [
  | inl missed ↦
      inr
        (x, ap (λ f. or_first f (x ∷ hits)) missed, inr (find-none-any id (x ∷ hits) missed, refl))
  | inr (hit, found) ↦ inr (
    hit,
    ap (λ f. or_first f (x ∷ hits)) found,
    inl (find_passes (has_marker id) (x ∷ hits) hit found),
  )
]

-- What the search sees of a leaf that was imported.
abbrev pub imported : (number id parent title domain : String) → Options → Hit
imported number id parent title domain o = record {
  id = number;
  description = some (leaf id parent title domain o).description;
  links = [];
}

-- A leaf whose identifier begins with that of another task counts as holding the marker of that task,
-- and the search for that task returns the leaf if it comes first among the results.
pub search_by_roadmap_id-longer :
    (id rest number parent title domain : String) (o : Options) (hits : List Hit)
    → let hit = imported number (id ++ rest) parent title domain o in
      (has_marker id hit ≡ true) × (search_by_roadmap_id id (hit ∷ hits) ≡ some hit)
unfolding search_by_roadmap_id
search_by_roadmap_id-longer id rest number parent title domain o hits =
    let (_, marked, _, _) = description-marked (id ++ rest) parent title domain o in
    let text = (leaf (id ++ rest) parent title domain o).description in
    let counts : includes text (marker id) ≡ true = includes_shorter text (marker id) rest (
      subst (λ m. includes text m ≡ true) (sym (append_assoc "**Roadmap ID:** " id rest)) marked) in
    (counts, rw counts refl)
