-- ===== src/Roadmap/Import/Existing.antt =====
-- What the map of existing tasks says of a listing.
use release_ops.Common.{
  ◌<◌, String, ◌≡◌, refl, ◌≢◌, ◌⊎◌, inl, inr, true, false, List, [], ◌∷◌, Option, none, some, arith,
}
use release_ops.Common.Json.{Entries, lookup, lookup-insert}
use release_ops.Roadmap.{Hit}
use release_ops.Roadmap.Tracker.{names, marked_id, occurrences}
use release_ops.Roadmap.Planning.{remember, existing_by_roadmap_id}

lookup-remember-none :
    (id : String) (mark : Option String) (hit : Hit) (known : Entries Hit)
    → lookup id (remember mark hit known) ≡ none
    → (lookup id known ≡ none) × (names mark id ≡ false)
lookup-remember-none id none hit known h = (h, refl)
lookup-remember-none id (some other) hit known h = ground (arith, lookup-insert other id hit known)

lookup-remember-some :
    (id : String) (mark : Option String) (hit : Hit) (known : Entries Hit)
    → lookup id (remember mark hit known) ≢ none
    → (lookup id known ≢ none) ⊎ (names mark id ≡ true)
lookup-remember-some id none hit known h = inl h
lookup-remember-some id (some other) hit known h = ground (arith, lookup-insert other id hit known)

-- A task that the map does not know is not in the listing.
pub lookup-existing-none :
    (id : String) (known : Entries Hit) (hits : List Hit)
    → lookup id (existing_by_roadmap_id known hits) ≡ none
    → (lookup id known ≡ none) × (occurrences id hits ≡ 0)
unfolding existing_by_roadmap_id occurrences
lookup-existing-none id known [] h = (h, refl)
lookup-existing-none id known (hit ∷ hits) h =
    let (before, later) = lookup-existing-none id (remember (marked_id hit) hit known) hits h in
    let (old, other) = lookup-remember-none id (marked_id hit) hit known before in
    (old, ground (arith, later, other))

-- One that it knows is.
pub lookup-existing-some :
    (id : String) (known : Entries Hit) (hits : List Hit)
    → lookup id (existing_by_roadmap_id known hits) ≢ none
    → (lookup id known ≢ none) ⊎ (0 < occurrences id hits)
unfolding existing_by_roadmap_id occurrences
lookup-existing-some id known [] h = inl h
lookup-existing-some id known (hit ∷ hits) h =
    elim (lookup-existing-some id (remember (marked_id hit) hit known) hits h) [
      | inr later ↦ inr (ground (arith, later))
      | inl before ↦ elim (lookup-remember-some id (marked_id hit) hit known before) [
        | inl old ↦ inl old
        | inr named ↦ inr (ground (arith, named))
      ]
    ]
