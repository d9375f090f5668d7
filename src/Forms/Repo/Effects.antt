-- ===== src/Forms/Repo/Effects.antt =====
-- The effects of the dialog settle, and keep the selected integration consistent.
use release_ops.Common.{
  String, ◌==◌, eq_refl, ◌≡◌, refl, ◌∙◌, ap, Bool, true, false, not, ◌&&◌, ◌||◌, List, [], ◌∷◌, any,
  find, Option, none, some, if◌then◌else◌, arith, inl, inr, Bool-cases,
}
use release_ops.Common.Text.{is_empty_text}
use release_ops.Forms.Base.{create, edit, is_create, Integration, Repo}
use release_ops.Forms.Repo.{
  Props, State, Event, set_source_kind, pick_integration, handle, begin_reset, load_new, load_repo,
  source_integration_ids, default_integration_id, id_or_empty, is_stray, commit, settle,
}

-- A credential that is found by its kind is among the choices for the kind.
find-listed :
    (integrations : List Integration) (kind : String) (x : Integration)
    → find (λ (i : Integration). i.kind == kind && i.is_default) integrations ≡ some x
    → any (λ id. id == x.id) (source_integration_ids integrations kind) ≡ true
find-listed [] kind x h = cc
find-listed (i ∷ rest) kind x h = elim (Bool-cases (i.kind == kind)) [
  | inr other ↦ rw other (find-listed rest kind x (rw other at h))
  | inl same ↦ elim (Bool-cases i.is_default) [
    | inl first ↦ rw same (ground (arith, eq_refl x.id))
    | inr later ↦ rw same (or-right (i.id == x.id) (find-listed rest kind x (ground arith)))
  ]
]
  where
    or-right : (a : Bool) {b : Bool} → b ≡ true → (a || b) ≡ true
    or-right true h = refl
    or-right false h = h

-- The default of a kind is empty or among the integrations of the kind.
default-listed :
    (integrations : List Integration) (kind : String)
    → (is_empty_text (default_integration_id integrations kind)
        || any
            (λ id. id == default_integration_id integrations kind)
            (source_integration_ids integrations kind))
      ≡ true
default-listed integrations kind =
    found (find (λ (i : Integration). i.kind == kind && i.is_default) integrations) refl
  where
    found :
        (o : Option Integration)
        → find (λ (i : Integration). i.kind == kind && i.is_default) integrations ≡ o
        → (is_empty_text (id_or_empty o)
            || any (λ id. id == id_or_empty o) (source_integration_ids integrations kind))
          ≡ true
    found none e = refl
    found (some x) e = ground (arith, find-listed integrations kind x e)

-- The dialog preselects the default credential: it is open, adds a repository, and no pick was made.
abbrev pub is_preselecting : Props → State → Bool
is_preselecting p s = p.is_open && (is_create p.mode && not s.integration_chosen)

-- What one round of the two last effects does to the selection.
abbrev pub next_selection : Props → State → String
next_selection p s =
    if is_preselecting p s
    then default_integration_id p.integrations s.source_kind
    else if is_stray p.integrations s
    then ""
    else s.source_integration_id

commit-selection :
    (p : Props) (s : State)
    → commit p false s ≡ record s { source_integration_id = next_selection p s }
unfolding commit
commit-selection p s = ground arith

next_selection-stable :
    (p : Props) (s : State)
    → next_selection p (record s { source_integration_id = next_selection p s })
      ≡ next_selection p s
next_selection-stable p s = ground (arith, default-listed p.integrations s.source_kind)

commit_idem : (p : Props) (s : State) → commit p false (commit p false s) ≡ commit p false s
commit_idem p s =
    rw
      (
        commit-selection p s,
        commit-selection p (record s { source_integration_id = next_selection p s }),
      )
      (ap (λ id. record s { source_integration_id = id }) (next_selection-stable p s))

-- Rendering ends: after two rounds of effects, a further round changes nothing.
settle_stable :
    (p : Props) (changed : Bool) (s : State)
    → commit p false (settle p changed s) ≡ settle p changed s
unfolding settle
settle_stable p changed s = commit_idem p (commit p changed s)

listed_or_stray : (a b : Bool) → (a || b) ≡ true → (not a && not b) ≡ false
listed_or_stray true b h = refl
listed_or_stray false true h = refl
listed_or_stray false false h = cc

-- The choice that `next_selection` makes, for any property of texts.
choice_passes :
    (stray : String → Bool) (b : Bool) (d v : String)
    → stray d ≡ false
    → stray "" ≡ false
    → stray (if b then d else if stray v then "" else v) ≡ false
choice_passes stray true d v hd he = hd
choice_passes stray false d v hd he = elim (Bool-cases (stray v)) [
  | inl lost ↦ rw lost he
  | inr kept ↦ rw kept kept
]

next_selection-listed :
    (p : Props) (s : State)
    → is_stray p.integrations (record s { source_integration_id = next_selection p s }) ≡ false
next_selection-listed p s =
    choice_passes (λ id. is_stray p.integrations (record s { source_integration_id = id }))
      (is_preselecting p s) (default_integration_id p.integrations s.source_kind)
      s.source_integration_id (listed_or_stray _ _ (default-listed p.integrations s.source_kind))
      refl

-- Whatever was shown before, the selected integration is then empty or one of the source kind.
pub settle-listed :
    (p : Props) (changed : Bool) (s : State) → is_stray p.integrations (settle p changed s) ≡ false
unfolding settle
settle-listed p changed s =
    rw (commit-selection p (commit p changed s)) (next_selection-listed p (commit p changed s))

settle-selection :
    (p : Props) (s : State)
    → settle p false s ≡ record s { source_integration_id = next_selection p s }
unfolding settle
settle-selection p s = commit_idem p s ∙ commit-selection p s

-- While a repository is added, a new source kind preselects its default credential, whatever was
-- picked before; while one is edited, it keeps the credential only if that is one of the new kind.
set_source_kind-selection :
    (p : Props) (kind : String) (s : State)
    → p.is_open ≡ true
    → (settle p false (handle (set_source_kind kind) s)).source_integration_id ≡ (
        if is_create p.mode
        then default_integration_id p.integrations kind
        else if is_stray p.integrations (record s { source_kind = kind })
        then ""
        else s.source_integration_id)
unfolding handle
set_source_kind-selection p kind s h =
    rw (settle-selection p (record s { source_kind = kind; integration_chosen = false }))
      (ground arith)

-- The fields that the other handlers set.
abbrev pub KeepsKind : Event → Type 0
KeepsKind (set_source_kind kind) = ⊥
KeepsKind (pick_integration id) = ⊥
KeepsKind _ = Unit

-- An explicit pick is kept by every event but another pick and a new source kind.
pick_kept :
    (p : Props) (e : Event) (s : State)
    → KeepsKind e
    → s.integration_chosen ≡ true
    → is_stray p.integrations s ≡ false
    → ((settle p false (handle e s)).source_integration_id ≡ s.source_integration_id)
      × ((settle p false (handle e s)).integration_chosen ≡ true)
unfolding handle
pick_kept p (set_source_kind kind) s k c h = absurd k
pick_kept p (pick_integration id) s k c h = absurd k
pick_kept p e s k c h = rw (settle-selection p (handle e s)) (ground arith, ground arith)

-- The state after the dialog opens to add a repository.
abbrev pub fresh : Props → State → State
fresh p s = record (load_new p.ticket_projects (begin_reset s)) {
  source_integration_id = default_integration_id p.integrations "github";
}

-- The round in which the dialog opens fills the form; the selection waits for the next round.
commit-create :
    (p : Props) (s : State)
    → p.is_open ≡ true
    → p.mode ≡ create
    → commit p true s ≡ record (load_new p.ticket_projects (begin_reset s)) {
      source_integration_id = (commit p true s).source_integration_id;
    }
unfolding commit
commit-create p s h m = ground arith

-- Opening the dialog to add a repository shows the empty form with the default credential of GitHub
-- and the first ticket project, whatever was shown before.
pub open-create :
    (p : Props) (s : State) → p.is_open ≡ true → p.mode ≡ create → settle p true s ≡ fresh p s
unfolding settle
open-create p s h m =
    ap (commit p false) (commit-create p s h m)
    ∙ commit-selection p _
    ∙ ap (λ id. record (load_new p.ticket_projects (begin_reset s)) { source_integration_id = id })
        (rw (h, m))

commit-edit :
    (p : Props) (s : State) (repo : Repo)
    → p.is_open ≡ true
    → p.mode ≡ edit
    → p.repo ≡ some repo
    → is_stray p.integrations s ≡ false
    → commit p true s ≡ load_repo repo (begin_reset s)
unfolding commit
commit-edit p s repo h m r old = rw old (rw (h, m) (rw r))

-- Opening the dialog to edit a repository shows that repository, if its credential is one of its
-- kind and the one shown before is one of its own kind.
pub open-edit :
    (p : Props) (s : State) (repo : Repo)
    → p.is_open ≡ true
    → p.mode ≡ edit
    → p.repo ≡ some repo
    → is_stray p.integrations s ≡ false
    → is_stray p.integrations (load_repo repo s) ≡ false
    → settle p true s ≡ load_repo repo (begin_reset s)
unfolding settle
open-edit p s repo h m r old own =
    ap (commit p false) (commit-edit p s repo h m r old)
    ∙ commit-selection p (load_repo repo (begin_reset s))
    ∙ ap (λ id. record (load_repo repo (begin_reset s)) { source_integration_id = id })
        (rw (h, m) (rw own))
