-- ===== src/Roadmap/Page/Laws.antt =====
-- The tables of the page of scripts/generate-roadmap.mjs, and its escaped texts.
use release_ops.Common.{
  eqb, String, Char, code, eq_iff, eq_refl, ◌≡◌, refl, sym, ap, subst, ◌∙◌, true, false, inl, inr,
  ◌||◌, List, [], ◌∷◌, ◌++◌, keep, Option, none, some, if◌then◌else◌, Bool-cases, ◌or_else◌, arith,
}
use release_ops.Common.Text.{Chars, onto}
use release_ops.Roadmap.{Task}
use release_ops.Roadmap.Planning.{leaves}
use release_ops.Roadmap.Page.{
  replace_all, esc, Groups, same_key, has_group, get_group, push_to, add_leaf, add_leaves, children,
}

same_key-equal : (j k : Option String) → same_key j k ≡ true → j ≡ k
same_key-equal none none h = refl
same_key-equal none (some k) h = absurd (cc)
same_key-equal (some j) none h = absurd (cc)
same_key-equal (some j) (some k) h = ap some ((eq_iff j k).0 h)

same_key_refl : (k : Option String) → same_key k k ≡ true
same_key_refl none = refl
same_key_refl (some k) = eq_refl k

-- The leaves under a key, none where it is missing.
abbrev group_of : Option String → Groups → List Task
group_of k groups = get_group k groups or_else []

-- A leaf under the key, if it is the leaf's own.
abbrev own : Option String → Option String → Task → List Task
own key k t = if same_key key k then t ∷ [] else []

append_nil : (ts : List Task) → ts ≡ ts ++ []
append_nil [] = refl
append_nil (t ∷ ts) = ap (λ us. t ∷ us) (append_nil ts)

append_assoc : (ts us vs : List Task) → (ts ++ us) ++ vs ≡ ts ++ (us ++ vs)
append_assoc [] us vs = refl
append_assoc (t ∷ ts) us vs = ap (λ ws. t ∷ ws) (append_assoc ts us vs)

group_of-push_to :
    (key k : Option String) (t : Task) (groups : Groups)
    → has_group key groups ≡ true
    → group_of k (push_to key t groups) ≡ group_of k groups ++ own key k t
unfolding get_group push_to
group_of-push_to key k t [] h = absurd (cc)
group_of-push_to key k t ((k₀, ts) ∷ groups) h = elim (Bool-cases (same_key k₀ key)) [
  | inl e ↦
      let same : same_key key k ≡ same_key k₀ k =
        ap (λ j. same_key j k) (sym (same_key-equal k₀ key e)) in
      elim (Bool-cases (same_key k₀ k)) [
        | inl f ↦ rw e (rw same (rw f refl))
        | inr f ↦ rw e (rw same (rw f (append_nil _)))
      ]
  | inr n ↦ elim (Bool-cases (same_key k₀ k)) [
    | inl f ↦
        let other : same_key key k ≡ same_key key k₀ =
          ap (same_key key) (sym (same_key-equal k₀ k f)) in
        elim (Bool-cases (same_key key k₀)) [
          | inl g ↦
              let stuck : same_key k₀ key ≡ true =
                ap (same_key k₀) (same_key-equal key k₀ g) ∙ same_key_refl k₀ in
              absurd (cc)
          | inr g ↦ rw n (rw other (rw (f, g) (append_nil _)))
        ]
    | inr f ↦
        let there : has_group key groups ≡ true = sym (rw n refl) ∙ h in
        rw n (rw f (group_of-push_to key k t groups there))
  ]
]

-- A key that is missing gets no leaf, which changes nothing.
group_of-append_empty :
    (key k : Option String) (groups : Groups)
    → group_of k (groups ++ ((key, []) ∷ [])) ≡ group_of k groups
unfolding get_group
group_of-append_empty key k [] = elim (Bool-cases (same_key key k)) [
  | inl e ↦ rw e refl
  | inr n ↦ rw n refl
]
group_of-append_empty key k ((k₀, ts) ∷ groups) = elim (Bool-cases (same_key k₀ k)) [
  | inl e ↦ rw e refl
  | inr n ↦ rw n (group_of-append_empty key k groups)
]

has_group-append :
    (key : Option String) (groups : Groups) → has_group key (groups ++ ((key, []) ∷ [])) ≡ true
has_group-append key [] = rw (same_key_refl key) refl
has_group-append key ((k₀, ts) ∷ groups) = ground (arith, has_group-append key groups)

group_of-add_leaf :
    (k : Option String) (groups : Groups) (t : Task)
    → group_of k (add_leaf groups t) ≡ group_of k groups ++ own t.parent k t
unfolding add_leaf
group_of-add_leaf k groups t = elim (Bool-cases (has_group t.parent groups)) [
  | inl there ↦ rw there (group_of-push_to t.parent k t groups there)
  | inr missing ↦ rw missing (
      group_of-push_to t.parent k t (groups ++ ((t.parent, []) ∷ []))
        (has_group-append t.parent groups)
      ∙ ap (λ ts. ts ++ own t.parent k t) (group_of-append_empty t.parent k groups))
]

own-keep :
    (k : Option String) (t : Task) (ts : List Task)
    → own t.parent k t ++ keep (λ l. same_key l.parent k) ts
      ≡ keep (λ l. same_key l.parent k) (t ∷ ts)
own-keep k t ts = elim (Bool-cases (same_key t.parent k)) [ inl e ↦ rw e refl | inr n ↦ rw n refl ]

group_of-add_leaves :
    (k : Option String) (groups : Groups) (ts : List Task)
    → group_of k (add_leaves groups ts) ≡ group_of k groups ++ keep (λ l. same_key l.parent k) ts
unfolding add_leaves
group_of-add_leaves k groups [] = append_nil _
group_of-add_leaves k groups (t ∷ ts) =
    group_of-add_leaves k (add_leaf groups t) ts
    ∙ ap (λ us. us ++ keep (λ l. same_key l.parent k) ts) (group_of-add_leaf k groups t)
    ∙ append_assoc (group_of k groups) (own t.parent k t) _
    ∙ ap (λ us. group_of k groups ++ us) (own-keep k t ts)

-- The table of an epic has exactly the leaves of the roadmap whose parent is the epic, in the order
-- of the roadmap.
pub children_lem :
    (tasks : List Task) (epic : Task)
    → children tasks epic ≡ keep (λ l. same_key l.parent (some epic.id)) (leaves tasks)
unfolding children get_group
children_lem tasks epic = group_of-add_leaves (some epic.id) [] (leaves tasks)

-- What a character is shown as.
abbrev pub entity : Char → String
entity c =
    if eqb (code c) b'&'
    then "&amp;"
    else (if eqb (code c) b'<'
        then "&lt;"
        else (if eqb (code c) b'>'
            then "&gt;"
            else (if eqb (code c) b'"' then "&quot;" else String.◌∷◌ c String.[])))

-- A text with every character shown by itself.
unfoldable pub escaped : String → String
escaped String.[] = String.[]
escaped (String.◌∷◌ c s) = onto (entity c) (escaped s)

-- A character that can neither open or close a tag nor end a value in quotes.
abbrev pub IsInert : Char → Type 0
IsInert c = (eqb (code c) b'<' || (eqb (code c) b'>' || eqb (code c) b'"')) ≡ false

esc-escaped : (s : String) → esc s ≡ escaped s
unfolding esc replace_all escaped
esc-escaped String.[] = refl
esc-escaped (String.◌∷◌ c s) = elim (Bool-cases (eqb (code c) b'&')) [
  | inl e ↦ rw e (ap (onto "&amp;") (esc-escaped s))
  | inr a ↦ elim (Bool-cases (eqb (code c) b'<')) [
    | inl e ↦ rw a (rw e (ap (onto "&lt;") (esc-escaped s)))
    | inr b ↦ elim (Bool-cases (eqb (code c) b'>')) [
      | inl e ↦ rw a (rw b (rw e (ap (onto "&gt;") (esc-escaped s))))
      | inr d ↦ elim (Bool-cases (eqb (code c) b'"')) [
        | inl e ↦ rw a (rw b (rw d (rw e (ap (onto "&quot;") (esc-escaped s)))))
        | inr e ↦ rw a (rw b (rw d (rw e (ap (String.◌∷◌ c) (esc-escaped s)))))
      ]
    ]
  ]
]

entity-IsInert : (c : Char) (s : String) → Chars IsInert s → Chars IsInert (onto (entity c) s)
entity-IsInert c s h = elim (Bool-cases (eqb (code c) b'&')) [
  | inl e ↦ rw e (refl, (refl, (refl, (refl, (refl, h)))))
  | inr a ↦ elim (Bool-cases (eqb (code c) b'<')) [
    | inl e ↦ rw a (rw e (refl, (refl, (refl, (refl, h)))))
    | inr b ↦ elim (Bool-cases (eqb (code c) b'>')) [
      | inl e ↦ rw a (rw b (rw e (refl, (refl, (refl, (refl, h))))))
      | inr d ↦ elim (Bool-cases (eqb (code c) b'"')) [
        | inl e ↦ rw a (rw b (rw d (rw e (refl, (refl, (refl, (refl, (refl, (refl, h)))))))))
        | inr e ↦ rw a (rw b (rw d (rw e (ground arith, h))))
      ]
    ]
  ]
]

escaped-IsInert : (s : String) → Chars IsInert (escaped s)
unfolding escaped
escaped-IsInert String.[] = tt
escaped-IsInert (String.◌∷◌ c s) = entity-IsInert c (escaped s) (escaped-IsInert s)

-- The four replacements, one after the other, show every character by itself, so that no entity is
-- escaped again; and the result has no character that opens or closes a tag or ends a value in
-- quotes.
pub esc-IsInert : (s : String) → (esc s ≡ escaped s) × Chars IsInert (esc s)
esc-IsInert s = (esc-escaped s, subst (Chars IsInert) (sym (esc-escaped s)) (escaped-IsInert s))
