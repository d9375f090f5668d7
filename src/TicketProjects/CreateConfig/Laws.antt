-- ===== src/TicketProjects/CreateConfig/Laws.antt =====
-- What is stored for a ticket project, and that storing it again changes nothing.
use release_ops.Common.{
  String, ◌==◌, eq_iff, ◌≡◌, refl, sym, ◌∙◌, ap, Bool, true, false, [], ◌∷◌, Option, none, some,
  if◌then◌else◌, inl, inr, Bool-cases, arith,
}
use release_ops.Common.Text.{trim, is_empty_text, trim-IsTrimmed}
use release_ops.Common.Json.{
  Value, str, Object, lookup, insert, spread, lookup-insert, lookup-spread, first_some, IsKeyed,
  insert-IsKeyed, spread-IsKeyed, to_text,
}
use release_ops.TicketProjects.CreateConfig.{
  default_create_config, create_config_from_record, text_or, text_or_empty, serialize_create_config,
}

-- The defaults of every kind list no key twice.
default_create_config-IsKeyed : (kind : String) → IsKeyed (default_create_config kind)
unfolding default_create_config lookup
default_create_config-IsKeyed kind = elim (Bool-cases (kind == "kaneo")) [
  | inl k ↦ rw k (refl, (refl, (refl, tt)))
  | inr nk ↦ elim (Bool-cases (kind == "jira")) [
    | inl j ↦ rw (nk, j) (refl, (refl, (refl, tt)))
    | inr nj ↦ elim (Bool-cases (kind == "linear")) [
      | inl l ↦ rw (nk, nj, l) (refl, (refl, tt))
      | inr nl ↦ rw (nk, nj, nl) tt
    ]
  ]
]

first_some_idem {ℓ} : {V : Type ℓ} (a d : Option V) → first_some (first_some a d) d ≡ first_some a d
first_some_idem (some a) d = refl
first_some_idem none (some d) = refl
first_some_idem none none = refl

-- Reading a key of the form's values: what the record holds, and else the kind's default.
pub lookup-create_config_from_record :
    (kind k : String) (r : Object)
    → IsKeyed r
    → lookup k (create_config_from_record kind r)
      ≡ first_some (lookup k r) (lookup k (default_create_config kind))
unfolding create_config_from_record
lookup-create_config_from_record kind k r h = lookup-spread k (default_create_config kind) r h

create_config_from_record-IsKeyed :
    (kind : String) (r : Object) → IsKeyed (create_config_from_record kind r)
unfolding create_config_from_record
create_config_from_record-IsKeyed kind r =
    spread-IsKeyed (default_create_config kind) r (default_create_config-IsKeyed kind)

absorbs_if :
    (b : Bool) (v o d : Option Value)
    → (first_some o d ≡ o)
    → first_some v d ≡ v
    → first_some (if b then v else o) d ≡ (if b then v else o)
absorbs_if true v o d h k = k
absorbs_if false v o d h k = h

absorbs_linear :
    (kind k : String) (p q : Value)
    → (kind == "kaneo") ≡ false
    → (kind == "linear") ≡ true
    → first_some
        (lookup k (("priority", p) ∷ ("stateId", q) ∷ []))
        (lookup k (default_create_config kind))
      ≡ lookup k (("priority", p) ∷ ("stateId", q) ∷ [])
unfolding default_create_config lookup
absorbs_linear kind k p q n l = rw ((eq_iff kind "linear").0 l) (ground arith)

module _ (parse : String → Option String) where
  serialize-IsKeyed :
      (kind : String) (values : Object) (w : String)
      → IsKeyed (serialize_create_config parse kind values w)
  unfolding serialize_create_config lookup
  serialize-IsKeyed kind values w = elim (Bool-cases (kind == "kaneo")) [
    | inl k ↦ rw k (insert-IsKeyed _ _ _ (create_config_from_record-IsKeyed kind values))
    | inr nk ↦ elim (Bool-cases (kind == "linear")) [
      | inl l ↦ rw (nk, l) (refl, (refl, tt))
      | inr nl ↦ rw (nk, nl) (create_config_from_record-IsKeyed kind values)
    ]
  ]

  -- What is stored already holds the defaults of its kind.
  stored_absorbs :
      (kind : String) (values : Object) (w k : String)
      → IsKeyed values
      → let stored = serialize_create_config parse kind values w in
        first_some (lookup k stored) (lookup k (default_create_config kind)) ≡ lookup k stored
  unfolding serialize_create_config lookup
  stored_absorbs kind values w k h =
      let own = lookup-create_config_from_record kind k values h in
      let twice = first_some_idem (lookup k values) (lookup k (default_create_config kind)) in
      elim (Bool-cases (kind == "kaneo")) [
        | inl e ↦ rw e (
            rw (lookup-insert "workspaceId" k _ (create_config_from_record kind values), own)
              (absorbs_if ("workspaceId" == k) _ _ _ twice refl))
        | inr ne ↦ elim (Bool-cases (kind == "linear")) [
          | inl l ↦ rw (ne, l) (absorbs_linear kind k _ _ ne l)
          | inr nl ↦ rw (ne, nl) (rw own twice)
        ]
      ]

  -- Loading what is stored shows the stored values, key by key.
  load-stored :
      (kind : String) (values : Object) (w k : String)
      → IsKeyed values
      → let stored = serialize_create_config parse kind values w in
        lookup k (create_config_from_record kind stored) ≡ lookup k stored
  load-stored kind values w k h =
      lookup-create_config_from_record kind k _ (serialize-IsKeyed kind values w)
      ∙ stored_absorbs kind values w k h

  reload-stored :
      (kind : String) (values : Object) (w k : String)
      → IsKeyed values
      → let stored = serialize_create_config parse kind values w in
        lookup k (create_config_from_record kind (create_config_from_record kind stored))
        ≡ lookup k stored
  reload-stored kind values w k h =
      lookup-create_config_from_record kind k _ (create_config_from_record-IsKeyed kind _)
      ∙ rw (load-stored kind values w k h) (stored_absorbs kind values w k h)

  -- The workspace that `serializeCreateConfig` stores for Kaneo.
  selected : Object → String → String
  selected values w = text_or (trim w) (trim (text_or_empty (lookup "workspaceId" values)))

  selected-IsTrimmed : (values : Object) (w : String) → trim (selected values w) ≡ selected values w
  unfolding selected
  selected-IsTrimmed values w = elim (Bool-cases (is_empty_text (trim w))) [
    | inl e ↦ rw e (trim-IsTrimmed (text_or_empty (lookup "workspaceId" values)))
    | inr n ↦ rw n (trim-IsTrimmed w)
  ]

  selected-empty :
      (values : Object) (s : String)
      → lookup "workspaceId" values ≡ some (str s)
      → selected values "" ≡ trim s
  unfolding selected trim to_text
  selected-empty values s h = rw h

  lookup-kaneo :
      (kind : String) (values : Object) (w k : String)
      → (kind == "kaneo") ≡ true
      → lookup k (serialize_create_config parse kind values w) ≡ (
          if "workspaceId" == k
          then some (str (selected values w))
          else lookup k (create_config_from_record kind values))
  unfolding serialize_create_config selected
  lookup-kaneo kind values w k e =
      rw e (lookup-insert "workspaceId" k _ (create_config_from_record kind values))

  save_again-kaneo :
      (kind : String) (values : Object) (w k : String)
      → IsKeyed values
      → (kind == "kaneo") ≡ true
      → let stored = serialize_create_config parse kind values w in
        lookup k (serialize_create_config parse kind (create_config_from_record kind stored) "")
        ≡ lookup k stored
  save_again-kaneo kind values w k h e =
      let stored = serialize_create_config parse kind values w in
      elim (Bool-cases ("workspaceId" == k)) [
        | inl is_workspace ↦
            lookup-kaneo kind (create_config_from_record kind stored) "" k e
            ∙ rw is_workspace (
                ap (λ s. some (str s))
                  (selected-empty _ (selected values w) (
                      load-stored kind values w "workspaceId" h
                      ∙ lookup-kaneo kind values w "workspaceId" e)
                    ∙ selected-IsTrimmed values w)
                ∙ sym (lookup-kaneo kind values w k e ∙ rw is_workspace))
        | inr other ↦
            lookup-kaneo kind (create_config_from_record kind stored) "" k e
            ∙ rw other (reload-stored kind values w k h)
      ]

  serialize_other :
      (kind : String) (values : Object) (w : String)
      → (kind == "kaneo") ≡ false
      → (kind == "linear") ≡ false
      → serialize_create_config parse kind values w ≡ create_config_from_record kind values
  unfolding serialize_create_config
  serialize_other kind values w n l = rw (n, l)

  save_again-linear :
      (kind : String) (values : Object) (w k : String)
      → IsKeyed values
      → (kind == "kaneo") ≡ false
      → (kind == "linear") ≡ true
      → let stored = serialize_create_config parse kind values w in
        lookup k (serialize_create_config parse kind (create_config_from_record kind stored) "")
        ≡ lookup k stored
  unfolding serialize_create_config default_create_config lookup spread insert to_text
  save_again-linear kind values w k h n l = rw ((eq_iff kind "linear").0 l)

  save_again-other :
      (kind : String) (values : Object) (w k : String)
      → IsKeyed values
      → (kind == "kaneo") ≡ false
      → (kind == "linear") ≡ false
      → let stored = serialize_create_config parse kind values w in
        lookup k (serialize_create_config parse kind (create_config_from_record kind stored) "")
        ≡ lookup k stored
  save_again-other kind values w k h n l =
      ap (lookup k) (serialize_other kind _ "" n l) ∙ reload-stored kind values w k h

  -- Opening a stored configuration in the form of the same kind and saving it unchanged, with no
  -- workspace picked, stores the same value under every key.
  pub save_again :
      (kind : String) (values : Object) (w k : String)
      → IsKeyed values
      → let stored = serialize_create_config parse kind values w in
        lookup k (serialize_create_config parse kind (create_config_from_record kind stored) "")
        ≡ lookup k stored
  save_again kind values w k h = elim (Bool-cases (kind == "kaneo")) [
    | inl e ↦ save_again-kaneo kind values w k h e
    | inr ne ↦ elim (Bool-cases (kind == "linear")) [
      | inl l ↦ save_again-linear kind values w k h ne l
      | inr nl ↦ save_again-other kind values w k h ne nl
    ]
  ]
