-- ===== src/Forms/Repo/Submit.antt =====
-- What the dialog sends.
use release_ops.Common.{
  String, ◌==◌, ◌≡◌, Bool, true, false, ◌&&◌, List, any, Option, none, some, arith, inl, inr,
  Bool-cases, ◌⊎◌,
}
use release_ops.Common.Text.{trim, is_empty_text}
use release_ops.Integrations.Kinds.{source_kind_requires_integration}
use release_ops.Forms.Base.{edit, Integration, Repo, Attempt, call, or_null, or_empty}
use release_ops.Forms.Repo.{
  Props, State, RepoInput, Call, on_create, on_update, submit, repo_payload, source_integration_ids,
  is_stray, settle, load_repo,
}
use release_ops.Forms.Repo.Effects.{settle-listed, open-edit}

-- The input that a submission carries, if it makes a call.
abbrev pub sent : Attempt Call → Option RepoInput
sent (call (on_create input)) = some input
sent (call (on_update id input)) = some input
sent _ = none

-- An input that the server can store: a path, a ticket project, and a credential of the source kind,
-- which may be left out only where the kind does without.
pub record IsComplete (integrations : List Integration) (input : RepoInput) : Type 0 where
  pub path : is_empty_text input.project_path ≡ false
  pub ticket_project : is_empty_text input.ticket_project_id ≡ false
  pub credential :
      ((input.source_integration_id ≡ none)
        × (source_kind_requires_integration input.source_kind ≡ false))
      ⊎ ((id : String) × (input.source_integration_id ≡ some id)
          × (any (λ j. j == id) (source_integration_ids integrations input.source_kind) ≡ true))

credential-cases :
    (integrations : List Integration) (s : State)
    → (source_kind_requires_integration s.source_kind && is_empty_text s.source_integration_id)
      ≡ false
    → is_stray integrations s ≡ false
    → ((or_null s.source_integration_id ≡ none)
        × (source_kind_requires_integration s.source_kind ≡ false))
      ⊎ ((id : String) × (or_null s.source_integration_id ≡ some id)
          × (any (λ j. j == id) (source_integration_ids integrations s.source_kind) ≡ true))
credential-cases integrations s h stray =
    elim (Bool-cases (is_empty_text s.source_integration_id)) [
      | inl empty ↦ inl (rw empty, ground arith)
      | inr full ↦ inr (s.source_integration_id, rw full, ground arith)
    ]

submit-payload :
    (p : Props) (s : State) (input : RepoInput)
    → sent (submit p s) ≡ some input
    → (input ≡ repo_payload s)
      × (is_empty_text (trim s.project_path) ≡ false)
      × (is_empty_text s.ticket_project_id ≡ false)
      × ((source_kind_requires_integration s.source_kind && is_empty_text s.source_integration_id)
          ≡ false)
unfolding submit
submit-payload p s input h = ground arith

-- Whatever the user did before the last round of effects, an input that is sent is complete.
pub submit-IsComplete :
    (p : Props) (changed : Bool) (s : State) (input : RepoInput)
    → sent (submit p (settle p changed s)) ≡ some input
    → IsComplete p.integrations input
submit-IsComplete p changed s input h =
    let t = settle p changed s in
    let (e, path, project, credential) = submit-payload p t input h in
    rw e (record {
      path = path;
      ticket_project = project;
      credential = credential-cases p.integrations t credential (settle-listed p changed s);
    })

-- Opening a stored repository and saving it unchanged sends what is stored: if its path has no
-- blank at an end, its fields are filled in, its credential is one of its kind, and the credential that
-- was selected before the dialog opened was empty or one of the source kind selected then, as it is after
-- every round of effects.
pub submit-open-edit :
    (p : Props) (s : State) (repo : Repo)
    → p.is_open ≡ true
    → p.mode ≡ edit
    → p.repo ≡ some repo
    → is_stray p.integrations s ≡ false
    → is_stray p.integrations (load_repo repo s) ≡ false
    → trim repo.project_path ≡ repo.project_path
    → is_empty_text repo.project_path ≡ false
    → is_empty_text repo.ticket_project_id ≡ false
    → (source_kind_requires_integration repo.source_kind
        && is_empty_text (or_empty repo.source_integration_id))
      ≡ false
    → submit p (settle p true s)
      ≡ call (
          on_update repo.id (record {
            source_kind = repo.source_kind;
            project_path = repo.project_path;
            enabled = repo.enabled;
            include_prereleases = repo.include_prereleases;
            source_integration_id = or_null (or_empty repo.source_integration_id);
            ticket_project_id = repo.ticket_project_id;
            notification_target_ids = repo.notification_target_ids;
          }))
unfolding submit
submit-open-edit p s repo h m r old own trimmed path project credential =
    rw (open-edit p s repo h m r old own)
      (rw trimmed (rw (path, project) (rw credential (rw (m, r)))))
