-- ===== src/Roadmap/Intake/Laws.antt =====
-- What a roadmap is that scripts/audit-roadmap-intake.mjs lets through, and an import behind the audit.
use Prim.Native.String
use release_ops.Common.{
  ◌≤◌, String, ◌==◌, eq_iff, eq_refl, ◌≡◌, ◌↔◌, refl, sym, ap, ◌∙◌, Bool, true, false, not, ◌||◌,
  inl, inr, List, [], ◌∷◌, ◌++◌, map, Option, none, some, Option-cases, ◌or_else◌, All, arith,
}
use release_ops.Common.Text.{is_empty_text}
use release_ops.Account.{units}
use release_ops.Roadmap.{Task}
use release_ops.Roadmap.Marked.{roadmap_id_of}
use release_ops.Roadmap.Planning.{leaves}
use release_ops.Roadmap.Intake.{
  Roadmap, domain_labels, is_listed, ids, has_no_parent, dependency_blockers, has_no_marker,
  has_other_marker, is_missing, is_other, is_short, blockers,
}
use release_ops.Roadmap.Intake.Empty.{
  append-empty, empty-append, All-map, complaints-empty, empty-complaints, if-empty, empty-if,
  counted-empty, empty-counted, not-false, All-unique, unique-All,
}

-- The roadmap is ready: what the audit asks for, said without its messages.
pub record IsReady (r : Roadmap) (spec_passed : Bool) : Type 0 where
  pub format : r.format ≡ some "phasical-intake-v2"
  pub mapping : r.has_mapping ≡ true
  pub parents :
      All
        (λ l.
          (parent : String) × (l.parent ≡ some parent)
          × (is_empty_text parent ≡ false)
          × (is_listed (ids r.tasks) parent ≡ true))
        (leaves r.tasks)
  pub dependencies : All (λ t. All (λ d. is_listed (ids r.tasks) d ≡ true) t.depends_on) r.tasks
  pub marked : All (λ t. roadmap_id_of t.description ≡ some t.id) r.tasks
  pub described : All (λ t. 200 ≤ units t.description) r.tasks
  pub domains : All (λ t. is_listed domain_labels t.domain ≡ true) r.tasks
  pub spec : spec_passed ≡ true

dependencies-empty :
    (known : List String) (tasks : List Task)
    → dependency_blockers known tasks ≡ []
    → All (λ t. All (λ d. is_listed known d ≡ true) t.depends_on) tasks
unfolding dependency_blockers
dependencies-empty known [] h = tt
dependencies-empty known (t ∷ tasks) h =
    let (here, later) = append-empty _ (dependency_blockers known tasks) h in
    (
      All-map (λ d. not-false (is_listed known d)) t.depends_on
          (complaints-empty _ _ t.depends_on here),
      dependencies-empty known tasks later,
    )

empty-dependencies :
    (known : List String) (tasks : List Task)
    → All (λ t. All (λ d. is_listed known d ≡ true) t.depends_on) tasks
    → dependency_blockers known tasks ≡ []
unfolding dependency_blockers
empty-dependencies known [] h = refl
empty-dependencies known (t ∷ tasks) (h, hs) =
    let here =
      empty-complaints (λ d. not (is_listed known d))
        (λ d. String.◌++◌ t.id (String.◌++◌ ": invalid depends_on " (String.◌++◌ d "")))
        t.depends_on (All-map (λ d k. rw k refl) t.depends_on h) in
    ap (λ ms. ms ++ dependency_blockers known tasks) here ∙ empty-dependencies known tasks hs

abbrev HasParent : List String → Task → Type 0
HasParent known l =
    (parent : String) × (l.parent ≡ some parent)
    × (is_empty_text parent ≡ false)
    × (is_listed known parent ≡ true)

parent_test : (known : List String) (l : Task) → has_no_parent known l ≡ false → HasParent known l
parent_test known l h = test l.parent h
  where
    test :
        (p : Option String)
        → elim p [ none ↦ true | some q ↦ is_empty_text q || not (is_listed known q) ] ≡ false
        → (parent : String) × (p ≡ some parent)
          × (is_empty_text parent ≡ false)
          × (is_listed known parent ≡ true)
    test none k = absurd (cc)
    test (some q) k = (q, refl, ground arith, ground arith)

test_parent : (known : List String) (l : Task) → HasParent known l → has_no_parent known l ≡ false
test_parent known l (parent, same, filled, listed) = rw same (rw (filled, listed) refl)

marker_test :
    (t : Task)
    → has_no_marker t ≡ false
    → has_other_marker t ≡ false
    → roadmap_id_of t.description ≡ some t.id
marker_test t h k = elim (Option-cases (roadmap_id_of t.description)) [
  | inl e ↦ let missing : has_no_marker t ≡ true = ap is_missing e in absurd (cc)
  | inr (id, e) ↦
      let same : not (id == t.id) ≡ false = sym (ap (is_other t.id) e) ∙ k in
      e ∙ ap some ((eq_iff id t.id).0 (not-false (id == t.id) same))
]

markers :
    (tasks : List Task)
    → All (λ t. has_no_marker t ≡ false) tasks
    → All (λ t. has_other_marker t ≡ false) tasks
    → All (λ t. roadmap_id_of t.description ≡ some t.id) tasks
markers [] h k = tt
markers (t ∷ tasks) (h, hs) (k, ks) = (marker_test t h k, markers tasks hs ks)

format_test :
    (format : Option String)
    → ((format or_else "undefined") == "phasical-intake-v2") ≡ true
    → format ≡ some "phasical-intake-v2"
format_test none h = absurd (cc)
format_test (some f) h = ap some ((eq_iff f "phasical-intake-v2").0 h)

All_of_map :
    (P : String → Type 0) (tasks : List Task)
    → All P (map (λ t. t.domain) tasks)
    → All (λ t. P t.domain) tasks
All_of_map P [] h = tt
All_of_map P (t ∷ tasks) (h, hs) = (h, All_of_map P tasks hs)

map_of_All :
    (P : String → Type 0) (tasks : List Task)
    → All (λ t. P t.domain) tasks
    → All P (map (λ t. t.domain) tasks)
map_of_All P [] h = tt
map_of_All P (t ∷ tasks) (h, hs) = (h, map_of_All P tasks hs)

ready : (r : Roadmap) (spec_passed : Bool) → blockers r spec_passed ≡ [] → IsReady r spec_passed
unfolding blockers
ready r spec_passed h =
    let (format, h₁) = append-empty _ _ h in
    let (mapping, h₂) = append-empty _ _ h₁ in
    let (parents, h₃) = append-empty _ _ h₂ in
    let (dependencies, h₄) = append-empty (dependency_blockers (ids r.tasks) r.tasks) _ h₃ in
    let (unmarked, h₅) = append-empty _ _ h₄ in
    let (mismatched, h₆) = append-empty _ _ h₅ in
    let (short, h₇) = append-empty _ _ h₆ in
    let (domains, spec) = append-empty _ _ h₇ in
    record {
      format = format_test r.format (if-empty _ _ format);
      mapping = if-empty r.has_mapping _ mapping;
      parents =
          All-map (parent_test (ids r.tasks)) (leaves r.tasks) (complaints-empty _ _ _ parents);
      dependencies = dependencies-empty (ids r.tasks) r.tasks dependencies;
      marked =
          markers r.tasks (counted-empty _ _ r.tasks unmarked)
            (counted-empty _ _ r.tasks mismatched);
      described = All-map (λ t k. ground arith) r.tasks (counted-empty is_short _ r.tasks short);
      domains =
          All_of_map (λ d. is_listed domain_labels d ≡ true) r.tasks
            (All-unique _ _ (
              All-map (λ d. not-false (is_listed domain_labels d)) _
                (complaints-empty _ _ _ domains)));
      spec = if-empty spec_passed _ spec;
    }

no_blockers :
    (r : Roadmap) (spec_passed : Bool) → IsReady r spec_passed → blockers r spec_passed ≡ []
unfolding blockers
no_blockers r spec_passed R = empty-append (empty-if _ _ (rw R.format refl)) (
    empty-append (empty-if _ _ R.mapping) (
      empty-append
        (empty-complaints _ _ (leaves r.tasks)
          (All-map (test_parent (ids r.tasks)) (leaves r.tasks) R.parents))
        (empty-append (empty-dependencies (ids r.tasks) r.tasks R.dependencies) (
          empty-append
            (empty-counted has_no_marker _ r.tasks
              (All-map (λ t m. ap is_missing m) r.tasks R.marked))
            (empty-append
              (empty-counted has_other_marker _ r.tasks
                (All-map (λ t m. ap (is_other t.id) m ∙ rw (eq_refl t.id) refl) r.tasks R.marked))
              (empty-append
                (empty-counted is_short _ r.tasks
                  (All-map (λ t k. ground arith) r.tasks R.described))
                (empty-append
                  (empty-complaints _ _ _ (
                    unique-All _ _
                      (map_of_All _ r.tasks (All-map (λ t k. rw k refl) r.tasks R.domains))))
                  (empty-if _ _ R.spec))))))))

-- The audit has no blockers exactly if the roadmap is ready: the format and the mapping are there, every
-- leaf has a known parent, every dependency is known, the first marker of every description names its
-- own task, descriptions have 200 code units, the domains are known, and the audit of the spec passed.
pub blockers-IsReady :
    (r : Roadmap) (spec_passed : Bool) → (blockers r spec_passed ≡ []) ↔ IsReady r spec_passed
blockers-IsReady r spec_passed = (ready r spec_passed, no_blockers r spec_passed)
