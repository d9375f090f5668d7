-- ===== src/Forms/Project/Effects.antt =====
-- The effects of the drawer settle, and what the form holds after it opens or its integration changes.
use release_ops.Common.{
  String, eq_iff, eq_refl, ◌≡◌, refl, sym, ap, Bool, true, false, Option, none, some, if◌then◌else◌,
  arith, inl, inr, ◌⊎◌,
}
use release_ops.Forms.Base.{is_create}
use release_ops.Forms.Project.{
  Props, State, Render, selected_integration, active_kind, project_effect, same_bool, same_kind,
  same_base, kind_changed, project_changed, commit, with_state, settle,
}

same_bool_refl : (b : Bool) → same_bool b b ≡ true
same_bool_refl true = refl
same_bool_refl false = refl

same_kind_refl : (k : Option String) → same_kind k k ≡ true
same_kind_refl none = refl
same_kind_refl (some k) = eq_refl k

pub same_kind-eq : (a b : Option String) → same_kind a b ≡ true → a ≡ b
same_kind-eq none none h = refl
same_kind-eq (some a) (some b) h = ap some ((eq_iff a b).0 h)
same_kind-eq none (some b) h = cc
same_kind-eq (some a) none h = cc

-- The active kind depends on the properties and the integration alone.
active_kind_of_id :
    (p : Props) (s t : State)
    → s.integration_id ≡ t.integration_id
    → active_kind p s ≡ active_kind p t
unfolding selected_integration
active_kind_of_id p s t h = rw h

same_base_of_id :
    (p : Props) (s t : State)
    → s.integration_id ≡ t.integration_id
    → same_base (record { props = p; state = s }) (record { props = p; state = t }) ≡ true
same_base_of_id p s t h = ground (
  arith,
  same_bool_refl p.is_open,
  same_bool_refl (is_create p.mode),
  same_kind_refl (active_kind p t),
  active_kind_of_id p s t h,
)

-- The round after an event changes no integration.
commit-integration_id : (r q : Render) → (commit false r q).integration_id ≡ q.state.integration_id
unfolding commit
commit-integration_id r q = ground arith

-- It keeps the external project or clears it.
commit-external_project_id :
    (r q : Render)
    → ((commit false r q).external_project_id ≡ q.state.external_project_id)
      ⊎ ((commit false r q).external_project_id ≡ "")
unfolding commit
commit-external_project_id r q = ground arith

module _ (p : Props) (s t : State) (same : s.integration_id ≡ t.integration_id) where
  kind_changed_of_id :
      kind_changed (record { props = p; state = s }) (record { props = p; state = t }) ≡ false
  kind_changed_of_id = rw (same_base_of_id p s t same) (rw same (rw (eq_refl t.integration_id)))

  project_changed_of_ids :
      s.external_project_id ≡ t.external_project_id
      → project_changed (record { props = p; state = s }) (record { props = p; state = t }) ≡ false
  project_changed_of_ids h =
      rw (same_base_of_id p s t same) (rw h (rw (eq_refl t.external_project_id)))

project_effect-empty :
    (p : Props) (t s : State) → t.external_project_id ≡ "" → project_effect p t s ≡ s
unfolding project_effect
project_effect-empty p t s h = rw h (ground arith)

-- Nothing happens after a render in which the integration is the same, and the external project is
-- the same or empty.
pub commit-same :
    (p : Props) (s t : State)
    → s.integration_id ≡ t.integration_id
    → (s.external_project_id ≡ t.external_project_id) ⊎ (t.external_project_id ≡ "")
    → commit false (record { props = p; state = s }) (record { props = p; state = t }) ≡ t
unfolding commit
commit-same p s t h (inl e) =
    rw (kind_changed_of_id p s t h) (rw (project_changed_of_ids p s t h e))
commit-same p s t h (inr e) = rw (kind_changed_of_id p s t h) (
    if_same (project_changed (record { props = p; state = s }) (record { props = p; state = t })) _
      _ (project_effect-empty p t t e))
  where
    if_same : (b : Bool) (x y : State) → x ≡ y → (if b then x else y) ≡ y
    if_same true x y h = h
    if_same false x y h = refl

-- Rendering ends: after the effects of two renders, those of a third change nothing.
pub rounds_stable :
    (changed : Bool) (r q : Render)
    → let first = with_state q (commit changed r q) in
      commit false first (with_state q (settle changed r q)) ≡ settle changed r q
unfolding settle
rounds_stable changed r q =
    let first = with_state q (commit changed r q) in
    commit-same q.props (commit changed r q) (commit false q first)
      (sym (commit-integration_id q first))
      (elim (commit-external_project_id q first) [ inl e ↦ inl (sym e) | inr e ↦ inr e ])
