-- ===== src/Roadmap/Spec/Laws.antt =====
-- What it means that scripts/audit-roadmap-spec.mjs finds no broken reference and no drift.
use release_ops.Common.{
  String, ◌==◌, ◌≡◌, refl, sym, ap, ◌∙◌, true, false, ◌⊎◌, inl, inr, List, [], ◌∷◌, map, keep, any,
  find, is_empty, some, Bool-cases, All, arith,
}
use release_ops.Roadmap.{Task}
use release_ops.Roadmap.Intake.Empty.{All-map, empty-complaints}
use release_ops.Roadmap.Spec.{
  Requirement, Pair, cover, coverage, gaps, hits_or_none, hits_of, drifts, drift, Entry, desc_refs,
  is_known, refs_of,
}

-- Every reference is to a task of the roadmap; a description may also name its own task.
pub record IsClosed (known entries : List Entry) : Type 0 where
  pub listed : All (λ e. All (λ ref. is_known known ref ≡ true) (refs_of e)) entries
  pub described :
      All
        (λ e.
          All
            (λ ref. (ref ≡ e.task.id) ⊎ (is_known known ref ≡ true))
            (desc_refs e.task.description))
        entries

-- Where no requirement is a gap, a listed one has hits.
hits_of-covered :
    (leaves : List Task) (reqs : List Requirement) (id : String)
    → gaps leaves reqs ≡ []
    → any (λ req. req.id == id) reqs ≡ true
    → is_empty (hits_of id (coverage leaves reqs)) ≡ false
hits_of-covered leaves [] id h there = absurd (cc)
hits_of-covered leaves (req ∷ reqs) id h there =
    elim (Bool-cases (is_empty (keep req.matches leaves))) [
      | inl gap ↦ let stuck : req ∷ gaps leaves reqs ≡ [] = sym (rw gap refl) ∙ h in absurd (cc)
      | inr covered ↦ elim (Bool-cases (req.id == id)) [
        | inl here ↦
            let found : find (λ c. c.of.id == id) (coverage leaves (req ∷ reqs))
                ≡ some (cover leaves req) =
              rw here refl in
            ap (λ o. is_empty (hits_or_none o)) found
            ∙ is_empty-map (keep req.matches leaves)
            ∙ covered
        | inr other ↦
            let passed : find (λ c. c.of.id == id) (coverage leaves (req ∷ reqs))
                ≡ find (λ c. c.of.id == id) (coverage leaves reqs) =
              rw other refl in
            ap (λ o. is_empty (hits_or_none o)) passed
            ∙ hits_of-covered leaves reqs id (sym (rw covered refl) ∙ h)
                (sym (rw other refl) ∙ there)
      ]
    ]
  where
    is_empty-map : (ts : List Task) → is_empty (map (λ t. t.id) ts) ≡ is_empty ts
    is_empty-map [] = refl
    is_empty-map (t ∷ ts) = refl

-- Without a gap there is no drift, if the page of every pair is among the requirements.
pub drift-gaps :
    (leaves : List Task) (reqs : List Requirement) (pairs : List Pair)
    → gaps leaves reqs ≡ []
    → All (λ pair. any (λ req. req.id == pair.ui) reqs ≡ true) pairs
    → drift (coverage leaves reqs) pairs ≡ []
drift-gaps leaves reqs pairs h listed = empty-complaints (drifts (coverage leaves reqs)) _ pairs (
    All-map (λ pair there. ground (arith, hits_of-covered leaves reqs pair.ui h there)) pairs
      listed)
