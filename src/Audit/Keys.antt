-- ===== src/Audit/Keys.antt =====
-- The keys that a block of a report holds, before and after its finding is marked.
use package.text.Mathlib.TextEquality.{Char-path}
use release_ops.Common.{
  Char, code, String, ◌==◌, eq_iff, eq_refl, ◌≡◌, refl, sym, ap, subst, ◌∙◌, true, false, inl, inr,
  List, [], ◌∷◌, Option, none, some, eqb, eqb→eq, Bool-cases, Option-cases, arith,
}
use release_ops.Common.Text.{
  Chars, is_space, is_empty_text, trim, trim_start, trim_end, starts_with, onto, starts_with-rest,
}
use release_ops.Common.Json.{Entries, insert}
use release_ops.Audit.Result.{ok, ◌>>=◌, require_some, ok-bind, require_some-ok}
use release_ops.Audit.Scalar.{
  Scalar, text, cons_first, is_key_char, key_name, key_value, key_and_value, match_line,
  parse_scalar, parse_line, parse_key_block,
}
use release_ops.Audit.Command.{set_filed}
use release_ops.Audit.Value.{IsFiledLine, parse_line-filed, filed-begins}

cons_first-some :
    (c : Char) (o : Option (String × String)) (name rest : String)
    → cons_first c o ≡ some (name, rest)
    → (n : String) × (o ≡ some (n, rest)) × (String.◌∷◌ c n ≡ name)
cons_first-some c none name rest h = absurd (cc)
cons_first-some c (some (n, others)) name rest h = (n, cc, cc)

-- A line with a key is its name, a colon and the rest.
pub key_name-whole :
    (s name rest : String)
    → key_name s ≡ some (name, rest)
    → (s ≡ onto name (String.◌∷◌ ":" rest)) × Chars (λ c. eqb (code c) b',' ≡ false) name
unfolding key_name
key_name-whole String.[] name rest h = absurd (cc)
key_name-whole (String.◌∷◌ c s) name rest h = elim (Bool-cases (eqb (code c) b':')) [
  | inl e ↦
      let step : some (String.[], s) ≡ some (name, rest) = sym (rw e refl) ∙ h in
      let empty : String.[] ≡ name = cc in
      let after : s ≡ rest = cc in
      let colon : c ≡ ":" = Char-path c ":" (eqb→eq (code c) b':' e) in
      subst
        (λ n.
          (String.◌∷◌ c s ≡ onto n (String.◌∷◌ ":" rest))
          × Chars (λ d. eqb (code d) b',' ≡ false) n)
        empty (ap (λ d. String.◌∷◌ d s) colon ∙ ap (String.◌∷◌ ":") after, tt)
  | inr n ↦ elim (Bool-cases (is_key_char c)) [
    | inl k ↦
        let step : cons_first c (key_name s) ≡ some (name, rest) = sym (rw (n, k) refl) ∙ h in
        let (more, found, same) = cons_first-some c (key_name s) name rest step in
        let (whole, chars) = key_name-whole s more rest found in
        let plain : eqb (code c) b',' ≡ false = ground arith in
        subst
          (λ m.
            (String.◌∷◌ c s ≡ onto m (String.◌∷◌ ":" rest))
            × Chars (λ d. eqb (code d) b',' ≡ false) m)
          same (ap (String.◌∷◌ c) whole, (plain, chars))
    | inr k ↦ let stuck : none ≡ some (name, rest) = sym (rw (n, k) refl) ∙ h in absurd (cc)
  ]
]

key_and_value-some :
    (o : Option (String × String)) (name raw : String)
    → key_and_value o ≡ some (name, raw)
    → (rest : String) × (o ≡ some (name, rest)) × (is_empty_text name ≡ false)
key_and_value-some none name raw h = absurd (cc)
key_and_value-some (some (n, rest)) name raw h = elim (Bool-cases (is_empty_text n)) [
  | inl e ↦ let stuck : none ≡ some (name, raw) = sym (rw e refl) ∙ h in absurd (cc)
  | inr filled ↦ elim (Option-cases (key_value rest)) [
    | inl e ↦ let stuck : none ≡ some (name, raw) = sym (rw filled (rw e refl)) ∙ h in absurd (cc)
    | inr (value, e) ↦
        let step : some (n, value) ≡ some (name, raw) = sym (rw filled (rw e refl)) ∙ h in
        let same : n ≡ name = cc in
        (rest, ap (λ m. some (m, rest)) same, subst (λ m. is_empty_text m ≡ false) same filled)
  ]
]

-- The key that is read from a line.
pub parse_line-key :
    (place line name : String) (value : Scalar)
    → parse_line place line ≡ ok (name, value)
    → (rest : String) × (key_name line ≡ some (name, rest)) × (is_empty_text name ≡ false)
unfolding match_line
parse_line-key place line name value h =
    let ((n, raw), matched, read) =
      ok-bind (require_some (match_line line) place _) _ (name, value) h in
    let (scalar, parsed, result) = ok-bind (parse_scalar raw _) _ (name, value) read in
    let same : n ≡ name = cc in
    key_and_value-some (key_name line) name raw
      (require_some-ok _ place _ (n, raw) matched ∙ ap (λ m. some (m, raw)) same)

-- A line has the key `filed` exactly if it begins so.
key-filed :
    (line name rest : String)
    → key_name line ≡ some (name, rest)
    → (name == "filed") ≡ starts_with line "filed:"
unfolding starts_with key_name
key-filed line name rest h = elim (Bool-cases (starts_with line "filed:")) [
  | inl begins ↦
      let (more, whole) = starts_with-rest line "filed:" begins in
      let named : some (name, rest) ≡ some ("filed", more) = sym h ∙ ap key_name whole in
      let same : name ≡ "filed" = ap (λ o. elim o [ none ↦ "" | some (n, r) ↦ n ]) named in
      rw same (eq_refl "filed" ∙ sym begins)
  | inr other ↦ elim (Bool-cases (name == "filed")) [
    | inl e ↦
        let (whole, chars) = key_name-whole line name rest h in
        let same : name ≡ "filed" = (eq_iff name "filed").0 e in
        let begins : starts_with line "filed:" ≡ true =
          ap (λ l. starts_with l "filed:") (whole ∙ ap (λ n. onto n (String.◌∷◌ ":" rest)) same) in
        absurd (cc)
    | inr n ↦ n ∙ sym other
  ]
]

-- A line with a key is not blank.
begins_filed-filled :
    (line : String) → starts_with line "filed:" ≡ true → is_empty_text (trim line) ≡ false
unfolding trim trim_start trim_end is_space
begins_filed-filled line h = let (rest, whole) = starts_with-rest line "filed:" h in rw whole refl

-- An entry that another list of entries goes on from.
pub block-cons :
    (place line : String) (lines : List String) (entries : Entries Scalar)
    → is_empty_text (trim line) ≡ false
    → parse_key_block place (line ∷ lines) ≡ ok entries
    → (name : String) × (value : Scalar) × (rest : Entries Scalar) × (parse_line place line
        ≡ ok (name, value))
      × (parse_key_block place lines ≡ ok rest)
      × ((name, value) ∷ rest ≡ entries)
unfolding parse_key_block
block-cons place line lines entries filled h =
    let step : (parse_line place line >>= λ entry.
    parse_key_block place lines >>= λ rest. ok (entry ∷ rest))
        ≡ ok entries =
      sym (rw filled refl) ∙ h in
    let ((name, value), read, after) = ok-bind (parse_line place line) _ entries step in
    let (rest, others, result) = ok-bind (parse_key_block place lines) _ entries after in
    (name, value, rest, read, others, cc)

block-built :
    (place line name : String) (value : Scalar) (lines : List String) (rest : Entries Scalar)
    → is_empty_text (trim line) ≡ false
    → parse_line place line ≡ ok (name, value)
    → parse_key_block place lines ≡ ok rest
    → parse_key_block place (line ∷ lines) ≡ ok ((name, value) ∷ rest)
unfolding parse_key_block
block-built place line name value lines rest filled read others =
    rw filled (rw read (rw others refl))

module _ (line value : String) (L : IsFiledLine line value) where
  line-filled : is_empty_text (trim line) ≡ false
  line-filled = begins_filed-filled line (filed-begins line value L)

  marked_key :
      (place key : String) (keys : List String) (entries : Entries Scalar)
      → is_empty_text (trim key) ≡ false
      → ((rest : Entries Scalar)
          → parse_key_block place keys ≡ ok rest
          → parse_key_block place (set_filed line keys) ≡ ok (insert "filed" (text value) rest))
      → (name : String) × (v : Scalar) × (rest : Entries Scalar) × (parse_line place key
          ≡ ok (name, v))
        × (parse_key_block place keys ≡ ok rest)
        × ((name, v) ∷ rest ≡ entries)
      → parse_key_block place (set_filed line (key ∷ keys))
        ≡ ok (insert "filed" (text value) entries)
  unfolding set_filed insert
  marked_key place key keys entries filled others_marked (name, v, rest, read, others, whole) =
      let (raw, named, _) = parse_line-key place key name v read in
      let test = key-filed key name raw named in
      subst
        (λ es.
          parse_key_block place (set_filed line (key ∷ keys)) ≡ ok (insert "filed" (text value) es))
        whole
        (elim (Bool-cases (starts_with key "filed:")) [
          | inl begins ↦
              rw (begins, test ∙ begins)
                (block-built place line "filed" (text value) keys rest line-filled
                  (parse_line-filed line value L place) others)
          | inr other ↦
              rw (other, test ∙ other)
                (block-built place key name v (set_filed line keys)
                  (insert "filed" (text value) rest) filled read (others_marked rest others))
        ])

  -- Marking the block sets the key.
  pub parse_key_block-set_filed :
      (place : String) (block : List String) (entries : Entries Scalar)
      → parse_key_block place block ≡ ok entries
      → parse_key_block place (set_filed line block) ≡ ok (insert "filed" (text value) entries)
  unfolding parse_key_block set_filed insert
  parse_key_block-set_filed place [] entries h =
      let none_there : [] ≡ entries = cc in
      subst (λ es. parse_key_block place (line ∷ []) ≡ ok (insert "filed" (text value) es))
        none_there
        (block-built place line "filed" (text value) [] [] line-filled
          (parse_line-filed line value L place) refl)
  parse_key_block-set_filed place (key ∷ keys) entries h =
      elim (Bool-cases (is_empty_text (trim key))) [
        | inl blank ↦ elim (Bool-cases (starts_with key "filed:")) [
          | inl begins ↦ let filled = begins_filed-filled key begins in absurd (cc)
          | inr other ↦
              rw other
                (rw blank (parse_key_block-set_filed place keys entries (sym (rw blank refl) ∙ h)))
        ]
        | inr filled ↦
            marked_key place key keys entries filled
              (λ rest others. parse_key_block-set_filed place keys rest others)
              (block-cons place key keys entries filled h)
      ]
