-- ===== src/Roadmap/Import/Plain.antt =====
-- The numbers of issues have no asterisk, so a parent's line in front of a description hides no marker.
use release_ops.Common.{
  String, ◌==◌, ◌≡◌, refl, sym, subst, ◌∙◌, inl, inr, Bool, true, false, [], Option, none, some,
  arith, if◌then◌else◌, Bool-cases,
}
use release_ops.Common.Text.{Lacks}
use release_ops.Common.Json.{Entries, lookup, insert, lookup-insert}
use release_ops.Roadmap.{Task, Link}
use release_ops.Roadmap.Marked.{roadmap_id_of, roadmap_id_of-append, is_unmarked, is_unmarked_plain}
use release_ops.Roadmap.Tracker.{
  Tracker, M, Ends, Ends-always, Ends-bind, ◌>>=◌, pure, create_label, add_label,
}
use release_ops.Roadmap.Import.{finish_create, ensure_label, wait_for_github_issue}
use release_ops.Roadmap.Planning.{
  Settings, Progress, issues_url, with_parent, parent_issue, flat, is_leaf, note_issue,
  note_created, issue_number,
}

-- A number of an issue has no asterisk.
abbrev pub IsPlain : Settings → Type 0
IsPlain settings = (text number : String) → settings.number text ≡ some number → Lacks b'*' number

-- The parent's line in front of a description does not change which marker is the first.
pub roadmap_id_of-with_parent :
    (number : Option String) (d : String)
    → ((n : String) → number ≡ some n → Lacks b'*' n)
    → roadmap_id_of (with_parent number d) ≡ roadmap_id_of d
unfolding is_unmarked
roadmap_id_of-with_parent none d h = refl
roadmap_id_of-with_parent (some n) d h =
    roadmap_id_of-append "**Parent:** " _ refl
    ∙ roadmap_id_of-append issues_url _ refl
    ∙ roadmap_id_of-append n _ (is_unmarked_plain n (h n refl))
    ∙ roadmap_id_of-append "\n\n" d refl

-- The numbers that were noted have no asterisk.
abbrev pub KnowsPlain : Entries (Option String) → Type 0
KnowsPlain known = (id n : String) → flat (lookup id known) ≡ some n → Lacks b'*' n

pub nil-KnowsPlain : KnowsPlain []
unfolding lookup
nil-KnowsPlain id n e = absurd (cc)

insert-KnowsPlain :
    (id : String) (number : Option String) (known : Entries (Option String))
    → ((n : String) → number ≡ some n → Lacks b'*' n)
    → KnowsPlain known
    → KnowsPlain (insert id number known)
insert-KnowsPlain id number known new old read n h = elim (Bool-cases (id == read)) [
  | inl same ↦ new n (ground (arith, lookup-insert id read number known))
  | inr other ↦ old read n (ground (arith, lookup-insert id read number known))
]

module _ (settings : Settings) (plain : IsPlain settings) where
  pub note_issue-KnowsPlain :
      (id : String) (link : Option Link) (known : Entries (Option String))
      → KnowsPlain known
      → KnowsPlain (note_issue settings id link known)
  note_issue-KnowsPlain id none known h = h
  note_issue-KnowsPlain id (some link) known h =
      insert-KnowsPlain id _ known (λ n e. plain link.external_id n e) h

  note_created-KnowsPlain :
      (id : String) (link : Option Link) (known : Entries (Option String))
      → KnowsPlain known
      → KnowsPlain (note_created id (issue_number settings link) known)
  note_created-KnowsPlain id none known h = h
  note_created-KnowsPlain id (some link) known h = number (settings.number link.external_id) refl
    where
      number :
          (o : Option String)
          → settings.number link.external_id ≡ o
          → KnowsPlain (note_created id o known)
      number none e = h
      number (some n) e =
          insert-KnowsPlain id (some n) known (λ m same. plain link.external_id m (e ∙ same)) h

pub parent_issue-plain :
    (task : Task) (known : Entries (Option String))
    → KnowsPlain known
    → (n : String) → parent_issue task known ≡ some n
    → Lacks b'*' n
parent_issue-plain task known h n e = of_parent (is_leaf task) task.parent e
  where
    of_parent :
        (leaf : Bool) (parent : Option String)
        → (if leaf then elim parent [ none ↦ none | some id ↦ flat (lookup id known) ] else none)
          ≡ some n
        → Lacks b'*' n
    of_parent true (some id) e = h id n e
    of_parent true none e = cc
    of_parent false parent e = cc

module _ (T : Tracker) (settings : Settings) (plain : IsPlain settings) where
  ensure_label-github :
      (name : String) (p : Progress) (s : T.State)
      → Ends
          (λ _. Unit {0})
          (λ r _. r.1.github_by_roadmap_id ≡ p.github_by_roadmap_id)
          (ensure_label T name p s)
  unfolding ensure_label
  ensure_label-github name p s = known (lookup name p.label_by_name)
    where
      known :
          (found : Option String)
          → Ends {A = String × Progress}
              (λ _. Unit {0})
              (λ r _. r.1.github_by_roadmap_id ≡ p.github_by_roadmap_id)
              ((elim found as (λ _. M T.State (String × Progress)) [
                | some id ↦ pure (id, p)
                | none ↦ T.api (create_label name) >>= λ id.
                    pure (id, record p { label_by_name = insert name id p.label_by_name })
              ])
                s)
      known (some id) = refl
      known none =
          Ends-bind (λ _. Unit {0}) (λ _ _. Unit {0}) _ _ (T.api (create_label name) s)
            (Ends-always _) (λ id t _. refl)

  -- The numbers that are known when a task has been created.
  pub finish_create-KnowsPlain :
      (task : Task) (p : Progress) (id : String) (s : T.State)
      → KnowsPlain p.github_by_roadmap_id
      → Ends
          (λ _. Unit {0})
          (λ p' _. KnowsPlain p'.github_by_roadmap_id)
          (finish_create T settings task p id s)
  unfolding finish_create
  finish_create-KnowsPlain task p id s known =
      Ends-bind (λ _. Unit {0}) (λ _ _. Unit {0}) _ _ (wait_for_github_issue T settings.polls id s)
        (Ends-always _)
        λ link t _.
          Ends-bind (λ _. Unit {0}) _ _ _ (ensure_label T task.domain _ t)
            (ensure_label-github task.domain _ t)
            λ (label_id, p') u same.
              Ends-bind (λ _. Unit {0}) (λ _ _. Unit {0}) _ _ (T.api (add_label label_id id) u)
                (Ends-always _)
                λ _ v _.
                  subst KnowsPlain (sym same)
                    (note_created-KnowsPlain settings plain task.id link _ known)
