-- ===== src/Forms/Project/Opening.antt =====
-- What the drawer holds after it opens, and after its integration changes.
use release_ops.Common.{
  String, ◌==◌, eq_iff, ◌≡◌, refl, sym, ◌∙◌, ap, Bool, true, false, not, ◌&&◌, some, if◌then◌else◌,
  arith, inl, inr, Bool-cases, ◌≢◌,
}
use release_ops.Common.Text.{is_empty_text}
use release_ops.TicketProjects.CreateConfig.{default_create_config}
use release_ops.TicketProjects.StatusMapping.{default_status_mapping}
use release_ops.Forms.Base.{create, edit, TicketProject}
use release_ops.Forms.Project.{
  Props, State, Render, active_kind, begin_reset, load_project, reset_effect, kind_effect,
  project_effect, same_base, kind_changed, project_changed, commit, with_state, settle,
  set_integration_id, handle,
}
use release_ops.Forms.Project.Effects.{commit-same}

if_same {ℓ} : {A : Type ℓ} (b : Bool) {x y : A} → x ≡ y → (if b then x else y) ≡ y
if_same true h = h
if_same false h = refl

module _ (p : Props) (m : p.mode ≡ edit) where
  kind_effect-edit : (t s : State) → kind_effect p t s ≡ s
  unfolding kind_effect
  kind_effect-edit t s = rw m (ground arith)

  project_effect-edit : (t s : State) → project_effect p t s ≡ s
  unfolding project_effect
  project_effect-edit t s = rw m (ground arith)

-- While a project is edited, a round of effects does nothing but load the form.
commit-edit :
    (changed : Bool) (r q : Render)
    → q.props.mode ≡ edit
    → commit changed r q ≡ (if changed then reset_effect q.props q.state else q.state)
unfolding commit
commit-edit changed r q m =
    let loaded = if changed then reset_effect q.props q.state else q.state in
    let kinds = if kind_changed r q then kind_effect q.props q.state loaded else loaded in
    if_same (project_changed r q) (project_effect-edit q.props m q.state kinds)
    ∙ if_same (kind_changed r q) (kind_effect-edit q.props m q.state loaded)

-- Opening the drawer to edit a ticket project shows that project, whatever was shown before.
pub open-load_project :
    (r q : Render) (project : TicketProject)
    → q.props.is_open ≡ true
    → q.props.mode ≡ edit
    → q.props.project ≡ some project
    → settle true r q ≡ load_project q.props.integrations project (begin_reset q.state)
unfolding settle reset_effect
open-load_project r q project h m e =
    commit-edit false q (with_state q (commit true r q)) m
    ∙ commit-edit true r q m
    ∙ rw h (rw (m, e))

-- The form with the defaults of a kind.
abbrev defaults : String → State → State
defaults kind s = record s {
  workspace_id = "";
  external_project_id = "";
  create_config = default_create_config kind;
  status_mapping = default_status_mapping;
}

module _ (p : Props) (kind : String) (h : p.is_open ≡ true) (m : p.mode ≡ create)
    (nonempty : is_empty_text kind ≡ false) where
  kind_effect-defaults :
      (t s : State) → active_kind p t ≡ some kind → kind_effect p t s ≡ defaults kind s
  unfolding kind_effect
  kind_effect-defaults t s k = rw k (rw nonempty (rw (h, m)))

  project_effect-defaults :
      (t s : State)
      → active_kind p t ≡ some kind
      → project_effect p t (defaults kind s) ≡ defaults kind s
  unfolding project_effect
  project_effect-defaults t s k = rw k (rw nonempty (ground arith))

different : (a b : String) → a ≢ b → (b == a) ≡ false
different a b h = elim (Bool-cases (b == a)) [
  | inl e ↦ absurd (h (sym ((eq_iff b a).0 e)))
  | inr e ↦ e
]

changed_by_id :
    (r q : Render) → q.state.integration_id ≢ r.state.integration_id → kind_changed r q ≡ true
changed_by_id r q h =
    rw (different q.state.integration_id r.state.integration_id h) (not_and (same_base r q))
  where
    not_and : (b : Bool) → not (b && false) ≡ true
    not_and true = refl
    not_and false = refl

-- The first round after another integration is picked.
picked-round :
    (p : Props) (s : State) (id kind : String)
    → p.is_open ≡ true
    → p.mode ≡ create
    → id ≢ s.integration_id
    → active_kind p (record s { integration_id = id }) ≡ some kind
    → is_empty_text kind ≡ false
    → commit false
        (record { props = p; state = s })
        (record { props = p; state = record s { integration_id = id } })
      ≡ defaults kind (record s { integration_id = id })
unfolding commit
picked-round p s id kind h m other k nonempty =
    let cur : State = record s { integration_id = id } in
    let r : Render = record { props = p; state = s } in
    let q : Render = record { props = p; state = cur } in
    rw (changed_by_id r q other) (
      rw (kind_effect-defaults p kind h m nonempty cur cur k)
        (if_same (project_changed r q) (project_effect-defaults p kind h m nonempty cur cur k)))

-- Picking another integration while a project is added empties the workspace and the external
-- project and sets the defaults of the integration's kind; the rest of the form stays.
set_integration_id-resets :
    (p : Props) (s : State) (id kind : String)
    → p.is_open ≡ true
    → p.mode ≡ create
    → id ≢ s.integration_id
    → active_kind p (record s { integration_id = id }) ≡ some kind
    → is_empty_text kind ≡ false
    → settle false
        (record { props = p; state = s })
        (record { props = p; state = handle (set_integration_id id) s })
      ≡ record s {
        integration_id = id;
        workspace_id = "";
        external_project_id = "";
        create_config = default_create_config kind;
        status_mapping = default_status_mapping;
      }
unfolding settle handle
set_integration_id-resets p s id kind h m other k nonempty =
    let cur : State = record s { integration_id = id } in
    let r : Render = record { props = p; state = s } in
    let q : Render = record { props = p; state = cur } in
    ap (λ t. commit false q (with_state q t)) (picked-round p s id kind h m other k nonempty)
    ∙ commit-same p cur (defaults kind cur) refl (inr refl)
