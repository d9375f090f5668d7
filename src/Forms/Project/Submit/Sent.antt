-- ===== src/Forms/Project/Submit/Sent.antt =====
-- When the drawer makes a call, and what the call carries.
use release_ops.Common.{
  String, ◌==◌, ◌≡◌, refl, sym, ap, subst, ◌∙◌, false, ◌&&◌, ◌⊎◌, is_empty, Option, none, some,
  arith, inl, inr, if◌then◌else◌,
}
use release_ops.Common.Text.{trim, is_empty_text}
use release_ops.Common.Json.{Object, lookup}
use release_ops.TicketProjects.CreateConfig.{serialize_create_config, text_or_empty}
use release_ops.TicketProjects.StatusMapping.{status_mapping_to_record}
use release_ops.Forms.Base.{Mode, create, edit, is_create, TicketProject, call}
use release_ops.Forms.Project.{Props, State, active_kind, lacks_kind, is_kaneo}
use release_ops.Forms.Project.Submit.{
  validate_status_mapping, validate_create_config, bad_config, lacks_name, lacks_project,
  lacks_integration, lacks_workspace, mapping_error, TabError, first_error, ProjectInput, Call,
  on_create, on_update, payload, submit, project_call, valid_call, attempt,
}

-- The value is there, and not blank.
abbrev Has : String → Object → Type 0
Has key values = is_empty_text (trim (text_or_empty (lookup key values))) ≡ false

-- What a form has that may be sent, whose integration is of this kind.
pub record IsValid (p : Props) (s : State) (kind : String) : Type 0 where
  pub named : is_empty_text (trim s.name) ≡ false
  pub project : is_empty_text (trim s.external_project_id) ≡ false
  pub integration : p.mode ≡ create → is_empty_text s.integration_id ≡ false
  pub kind_known : is_empty_text kind ≡ false
  pub workspace : p.mode ≡ create → kind ≡ "kaneo" → is_empty_text (trim s.workspace_id) ≡ false
  pub kaneo : kind ≡ "kaneo" → Has "status" s.create_config × Has "priority" s.create_config
  pub jira : kind ≡ "jira" → Has "issueType" s.create_config
  pub linear : kind ≡ "linear" → Has "stateId" s.create_config
  pub open_statuses : is_empty s.status_mapping.open_statuses ≡ false
  pub done : is_empty s.status_mapping.done ≡ false
  pub cancelled : is_empty s.status_mapping.cancelled ≡ false
  pub superseded : is_empty_text (trim s.status_mapping.superseded) ≡ false

module _ (p : Props) (s : State) where
  first_error-tests :
      first_error p s ≡ none
      → (lacks_name s ≡ false)
        × (lacks_project s ≡ false)
        × (lacks_integration p s ≡ false)
        × (lacks_workspace p s ≡ false)
        × (lacks_kind (active_kind p s) ≡ false)
        × (bad_config (active_kind p s) s.create_config ≡ false)
        × (mapping_error (validate_status_mapping s.status_mapping) ≡ none)
  unfolding first_error
  first_error-tests h = ground arith

  -- The tests on the kind, for the kind of the integration.
  first_error-IsValid :
      (kind : String) → first_error p s ≡ none → active_kind p s ≡ some kind → IsValid p s kind
  unfolding validate_status_mapping validate_create_config
  first_error-IsValid kind h k =
      let (named, project, integration, workspace, known, config, mapping) = first_error-tests h in
      let has_kind : is_empty_text kind ≡ false = sym (ap lacks_kind k) ∙ known in
      let configured : bad_config (some kind) s.create_config ≡ false =
        sym (ap (λ o. bad_config o s.create_config) k) ∙ config in
      let housed : (is_create p.mode && (kind == "kaneo" && is_empty_text (trim s.workspace_id)))
          ≡ false =
        sym (ap (λ o. is_create p.mode && (is_kaneo o && is_empty_text (trim s.workspace_id))) k)
        ∙ workspace in
      record {
        named = named;
        project = project;
        integration = λ m. sym (rw m refl) ∙ integration;
        kind_known = has_kind;
        workspace = λ m e. sym (rw m (rw e refl)) ∙ housed;
        kaneo = λ e.
            kaneo_config (subst (λ q. bad_config (some q) s.create_config ≡ false) e configured);
        jira = λ e.
            jira_config (subst (λ q. bad_config (some q) s.create_config ≡ false) e configured);
        linear = λ e.
            linear_config (subst (λ q. bad_config (some q) s.create_config ≡ false) e configured);
        open_statuses = ground arith;
        done = ground arith;
        cancelled = ground arith;
        superseded = ground arith;
      }
    where
      kaneo_config :
          bad_config (some "kaneo") s.create_config ≡ false
          → Has "status" s.create_config × Has "priority" s.create_config
      kaneo_config c = (ground arith, ground arith)

      jira_config :
          bad_config (some "jira") s.create_config ≡ false → Has "issueType" s.create_config
      jira_config c = ground arith

      linear_config :
          bad_config (some "linear") s.create_config ≡ false → Has "stateId" s.create_config
      linear_config c = ground arith

module _ (parse : String → Option String) where
  -- What is sent of a form, with the workspace that is to be stored.
  pub record Carries (s : State) (kind workspace_id : String) (input : ProjectInput) : Type 0 where
    pub name : input.name ≡ trim s.name
    pub create_config :
        input.create_config ≡ serialize_create_config parse kind s.create_config workspace_id
    pub status_mapping : input.status_mapping ≡ status_mapping_to_record s.status_mapping
    pub content_templates : input.content_templates ≡ s.content_templates
    pub policy : input.on_open_ticket_policy ≡ s.policy

  -- The call that a form can make.
  abbrev pub Sends : Props → State → String → Call → Type 0
  Sends p s kind c =
      (input : ProjectInput) × (((p.mode ≡ create)
          × (c ≡ on_create s.integration_id (trim s.external_project_id) input)
          × Carries s kind s.workspace_id input)
        ⊎ ((project : TicketProject) × (p.mode ≡ edit)
            × (p.project ≡ some project)
            × (c ≡ on_update project.id input)
            × Carries s kind "" input))

  payload-Carries :
      (s : State) (kind : String) (m : Mode)
      → Carries s kind (if is_create m then s.workspace_id else "") (payload parse m kind s)
  payload-Carries s kind m = record {
    name = refl;
    create_config = refl;
    status_mapping = refl;
    content_templates = refl;
    policy = refl;
  }

  call-Sends :
      (p : Props) (s : State) (kind : String) (c : Call) (m : Mode) (pr : Option TicketProject)
      → p.mode ≡ m
      → p.project ≡ pr
      → project_call parse m pr s (payload parse m kind s) ≡ call c
      → Sends p s kind c
  call-Sends p s kind c create pr m e h =
      (payload parse create kind s, inl (m, cc, payload-Carries s kind create))
  call-Sends p s kind c edit (some project) m e h =
      (payload parse edit kind s, inr (project, m, e, cc, payload-Carries s kind edit))
  call-Sends p s kind c edit none m e h = absurd (cc)

  valid-Sends :
      (p : Props) (s : State) (c : Call) (o : Option String)
      → valid_call parse p o s ≡ call c
      → (kind : String) × (o ≡ some kind) × Sends p s kind c
  valid-Sends p s c none h = absurd (cc)
  valid-Sends p s c (some kind) h = (kind, refl, call-Sends p s kind c p.mode p.project refl refl h)

  attempt-Sends :
      (p : Props) (s : State) (c : Call) (o : Option TabError)
      → attempt parse o p s ≡ call c
      → (o ≡ none) × ((kind : String) × (active_kind p s ≡ some kind) × Sends p s kind c)
  attempt-Sends p s c (some e) h = absurd (cc)
  attempt-Sends p s c none h = (refl, valid-Sends p s c (active_kind p s) h)

  -- A call is made only for a form whose integration is known and that is filled in: the name and the
  -- project, what its kind asks for, and the mapping of statuses; to add a project also the integration,
  -- and the workspace for Kaneo. The call carries the trimmed name, the configuration for the kind, the
  -- mapping, the templates and the policy of the form, and names the project that is edited.
  pub submit-call :
      (p : Props) (s : State) (c : Call)
      → submit parse p s ≡ call c
      → (kind : String) × (active_kind p s ≡ some kind) × IsValid p s kind × Sends p s kind c
  unfolding submit
  submit-call p s c h =
      let (valid, (kind, known, sends)) = attempt-Sends p s c (first_error p s) h in
      (kind, known, first_error-IsValid p s kind valid known, sends)
