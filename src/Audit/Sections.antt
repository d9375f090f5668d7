-- ===== src/Audit/Sections.antt =====
-- The sections of a report that is accepted (scripts/audit-report.mjs).
use release_ops.Common.{
  ℕ, suc, ◌+◌, String, ◌==◌, ◌≡◌, refl, sym, ap, subst, ◌∙◌, ◌⊎◌, Bool, true, false, inl, inr, List,
  [], ◌∷◌, ◌++◌, map, any, length, is_empty, Bool-cases, All,
}
use release_ops.Common.Text.{starts_with}
use release_ops.Common.Json.{Entries}
use release_ops.Audit.Result.{Result, ok, refused, ◌>>◌, ok-bind, require, require-then}
use release_ops.Audit.Scalar.{Scalar}
use release_ops.Audit.Finding.{Finding, slice, parse_finding}
use release_ops.Audit.Report.{Section, read_sections, trailing, add_finding}
use release_ops.Audit.Filed.{parse_finding-line}

abbrev pub all_keys : List Finding → List (Entries Scalar)
all_keys fs = map (λ f. f.keys) fs

abbrev pub name_of : Section → String
name_of s = slice 3 s.heading

abbrev pub next_of : ℕ → Section → ℕ
next_of n s = suc n + length s.body

-- A finding and those after it, in the loop over the sections.
pub record Found (n : ℕ) (seen : List String) (s : Section) (rest : List Section)
    (fs : List Finding) (tr : List String) : Type 0 where
  pub first : Finding
  pub others : List Finding
  pub named : starts_with (name_of s) "SA-" ≡ true
  pub alone : is_empty seen ≡ true
  pub parsed : parse_finding (name_of s) s.body (suc n) ≡ ok first
  pub later : read_sections (next_of n s) seen rest ≡ ok (others, tr)
  pub all : first ∷ others ≡ fs

pub record Trails (n : ℕ) (seen : List String) (s : Section) (rest : List Section)
    (fs : List Finding) (tr : List String) : Type 0 where
  pub named : starts_with (name_of s) "SA-" ≡ false
  pub known : any (λ t. t == name_of s) trailing ≡ true
  pub later : read_sections (next_of n s) (seen ++ (name_of s ∷ [])) rest ≡ ok (fs, tr)

abbrev is_ok {ℓ} : {A : Type ℓ} → Result A → Bool
is_ok (ok a) = true
is_ok (refused place reason) = false

pub read_sections-cons :
    (n : ℕ) (seen : List String) (s : Section) (rest : List Section) (fs : List Finding)
    (tr : List String)
    → read_sections n seen (s ∷ rest) ≡ ok (fs, tr)
    → Found n seen s rest fs tr ⊎ Trails n seen s rest fs tr
unfolding read_sections
read_sections-cons n seen s rest fs tr h = elim (Bool-cases (starts_with (name_of s) "SA-")) [
  | inl named ↦
      let step : (require (is_empty seen) (name_of s) "finding section after a trailing section"
            >> add_finding (parse_finding (name_of s) s.body (suc n))
                (read_sections (next_of n s) seen rest))
          ≡ ok (fs, tr) =
        sym (rw named refl) ∙ h in
      let (alone, more) =
        require-then (is_empty seen) _ _
          (add_finding (parse_finding (name_of s) s.body (suc n))
            (read_sections (next_of n s) seen rest))
          (fs, tr) step in
      let (first, parsed, after) =
        ok-bind (parse_finding (name_of s) s.body (suc n)) _ (fs, tr) more in
      let ((others, seen'), later, result) =
        ok-bind (read_sections (next_of n s) seen rest) _ (fs, tr) after in
      let trailed : seen' ≡ tr = cc in
      inl (record {
        first = first;
        others = others;
        named = named;
        alone = alone;
        parsed = parsed;
        later = later ∙ ap (λ t. ok (others, t)) trailed;
        all = cc;
      })
  | inr other ↦ elim (Bool-cases (any (λ t. t == name_of s) trailing)) [
    | inl known ↦
        inr (record { named = other; known = known; later = sym (rw (other, known) refl) ∙ h })
    | inr unknown ↦
        let stuck : is_ok (read_sections n seen (s ∷ rest)) ≡ false = rw (other, unknown) refl in
        let accepted : is_ok (read_sections n seen (s ∷ rest)) ≡ true = ap is_ok h in absurd (cc)
  ]
]

pub read_sections-found :
    (n : ℕ) (seen : List String) (s : Section) (rest : List Section) (f : Finding)
    (fs : List Finding) (tr : List String)
    → starts_with (name_of s) "SA-" ≡ true
    → is_empty seen ≡ true
    → parse_finding (name_of s) s.body (suc n) ≡ ok f
    → read_sections (next_of n s) seen rest ≡ ok (fs, tr)
    → read_sections n seen (s ∷ rest) ≡ ok (f ∷ fs, tr)
unfolding read_sections
read_sections-found n seen s rest f fs tr named alone parsed later =
    rw named (rw alone (rw parsed (rw later refl)))

pub read_sections-trails :
    (n : ℕ) (seen : List String) (s : Section) (rest : List Section) (fs : List Finding)
    (tr : List String)
    → starts_with (name_of s) "SA-" ≡ false
    → any (λ t. t == name_of s) trailing ≡ true
    → read_sections (next_of n s) (seen ++ (name_of s ∷ [])) rest ≡ ok (fs, tr)
    → read_sections n seen (s ∷ rest) ≡ ok (fs, tr)
unfolding read_sections
read_sections-trails n seen s rest fs tr named known later = rw named (rw known later)

-- Where the sections stand does not matter for the keys of their findings.
pub read_sections-line :
    (n m : ℕ) (seen : List String) (ss : List Section) (fs : List Finding) (tr : List String)
    → read_sections n seen ss ≡ ok (fs, tr)
    → (fs' : List Finding) × (read_sections m seen ss ≡ ok (fs', tr)) × (all_keys fs' ≡ all_keys fs)
unfolding read_sections
read_sections-line n m seen [] fs tr h = (fs, h, refl)
read_sections-line n m seen (s ∷ rest) fs tr h = elim (read_sections-cons n seen s rest fs tr h) [
  | inl F ↦
      let (others, later, same) =
        read_sections-line (next_of n s) (next_of m s) seen rest F.others tr F.later in
      let first : Finding = record { keys = F.first.keys; line = suc m } in
      (
        first ∷ others,
        read_sections-found m seen s rest first others tr F.named F.alone
            (parse_finding-line (name_of s) s.body (suc n) (suc m) F.first F.parsed) later,
        ap (λ ks. F.first.keys ∷ ks) same ∙ ap all_keys F.all,
      )
  | inr T ↦
      let (others, later, same) =
        read_sections-line (next_of n s) (next_of m s) (seen ++ (name_of s ∷ [])) rest fs tr
          T.later in
      (others, read_sections-trails m seen s rest others tr T.named T.known later, same)
]

-- What holds of every finding that is accepted by itself holds of the findings of the sections.
pub All-read_sections :
    (P : Finding → Type 0)
    → ((heading : String) (body : List String) (n : ℕ) (f : Finding)
        → parse_finding heading body n ≡ ok f
        → P f)
    → (n : ℕ) (seen : List String) (ss : List Section) (fs : List Finding) (tr : List String)
    → read_sections n seen ss ≡ ok (fs, tr)
    → All P fs
unfolding read_sections
All-read_sections P each n seen [] fs tr h =
    let none_there : [] ≡ fs = cc in subst (All P) none_there tt
All-read_sections P each n seen (s ∷ rest) fs tr h =
    elim (read_sections-cons n seen s rest fs tr h) [
      | inl F ↦ subst (All P) F.all (
        each (name_of s) s.body (suc n) F.first F.parsed,
        All-read_sections P each (next_of n s) seen rest F.others tr F.later,
      )
      | inr T ↦ All-read_sections P each (next_of n s) (seen ++ (name_of s ∷ [])) rest fs tr T.later
    ]
