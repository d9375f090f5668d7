-- ===== src/Audit/Filed.antt =====
-- A finding that is accepted is accepted after it is marked, with the one key changed.
use mathlib.Core.List.{append-nil, append_assoc}
use release_ops.Common.{
  ℕ, String, ◌==◌, eq_iff, ◌≡◌, refl, sym, ap, subst, ◌∙◌, false, List, [], ◌∷◌, ◌++◌, none, some,
  All, arith,
}
use release_ops.Common.Json.{
  Entries, lookup, insert, spread, IsKeyed, lookup-insert, insert-IsKeyed,
}
use release_ops.Audit.Result.{Result, ok, refused, ok-bind, require_some, require_some-ok}
use release_ops.Audit.Scalar.{Scalar, text, parse_key_block}
use release_ops.Audit.Finding.{
  Finding, names, from_entries, before, after_blanks, check_keys, check_values, check_sections,
  check_block, read_block, parse_finding,
}
use release_ops.Audit.Command.{set_filed, mark_block}
use release_ops.Audit.Lines.{Plain}
use release_ops.Audit.Marking.{mark_block-lem}
use release_ops.Audit.Value.{IsFiledLine, filed-IsNoFence, filed-IsNoHeading}
use release_ops.Audit.Keys.{parse_key_block-set_filed}
use release_ops.Audit.Order.{names-IsPart, check_keys-ordered, check_keys-insert, ordered-IsKeyed}

absent-other :
    (k key : String) (value : Scalar) (base over : Entries Scalar)
    → lookup k (base ++ ((key, value) ∷ over)) ≡ none
    → (k == key) ≡ false
unfolding lookup
absent-other k key value [] over h = ground (arith, eq_iff key k, eq_iff k key)
absent-other k key value ((j, w) ∷ base) over h = ground (arith, absent-other k key value base over)

insert-new :
    (key : String) (value : Scalar) (base over : Entries Scalar)
    → IsKeyed (base ++ ((key, value) ∷ over))
    → insert key value base ≡ base ++ ((key, value) ∷ [])
unfolding insert
insert-new key value [] over h = refl
insert-new key value ((k, v) ∷ base) over (absent, h) =
    rw (absent-other k key value base over absent)
      (ap (λ es. (k, v) ∷ es) (insert-new key value base over h))

-- The object of keys that are not repeated has them in their order.
spread-keyed :
    (base over : Entries Scalar) → IsKeyed (base ++ over) → spread base over ≡ base ++ over
unfolding spread
spread-keyed base [] h = sym (append-nil base)
spread-keyed base ((key, value) ∷ over) h =
    let same : base ++ ((key, value) ∷ over) ≡ (base ++ ((key, value) ∷ [])) ++ over =
      sym (append_assoc base ((key, value) ∷ []) over) in
    ap (λ b. spread b over) (insert-new key value base over h)
    ∙ spread-keyed (base ++ ((key, value) ∷ [])) over (subst IsKeyed same h)
    ∙ sym same

from_entries-keyed : (entries : Entries Scalar) → IsKeyed entries → from_entries entries ≡ entries
unfolding from_entries
from_entries-keyed entries h = spread-keyed [] entries h

pub other_key :
    (key : String) (value : Scalar) (entries : Entries Scalar)
    → ("filed" == key) ≡ false
    → lookup key (insert "filed" value entries) ≡ lookup key entries
other_key key value entries h = lookup-insert "filed" key value entries ∙ rw h refl

-- The checks read no `filed`.
check_values-insert :
    (place heading : String) (value : Scalar) (entries : Entries Scalar)
    → check_values place heading (insert "filed" value entries) ≡ check_values place heading entries
unfolding check_values
check_values-insert place heading value entries =
    rw
      (
        other_key "id" value entries refl,
        other_key "severity" value entries refl,
        other_key "type" value entries refl,
        other_key "label" value entries refl,
        other_key "withhold" value entries refl,
        other_key "verdict" value entries refl,
        other_key "files" value entries refl,
        other_key "related" value entries refl,
        other_key "cwe" value entries refl,
      )
      refl

-- What a block that is accepted holds.
pub record IsAccepted (place heading : String) (block rest : List String) (keys : Entries Scalar)
    : Type 0 where
  pub parsed : parse_key_block place block ≡ ok keys
  pub ordered : check_keys place (names keys) ≡ ok tt
  pub keyed : IsKeyed keys
  pub values : check_values place heading keys ≡ ok tt
  pub sections : check_sections place rest ≡ ok tt

check_block-IsAccepted :
    (place heading : String) (block rest : List String) (keys : Entries Scalar)
    → check_block place heading (block, rest) ≡ ok keys
    → IsAccepted place heading block rest keys
unfolding check_block
check_block-IsAccepted place heading block rest keys h =
    let (entries, parsed, h₁) = ok-bind (parse_key_block place block) _ keys h in
    let (_, ordered, h₂) = ok-bind (check_keys place (names entries)) _ keys h₁ in
    let (_, values, h₃) = ok-bind (check_values place heading (from_entries entries)) _ keys h₂ in
    let (_, sections, h₄) = ok-bind (check_sections place rest) _ keys h₃ in
    let parts = names-IsPart place block entries parsed in
    let (cwe, filed, order) = check_keys-ordered place (names entries) ordered parts in
    let keyed = ordered-IsKeyed entries cwe filed order in
    let plain = from_entries-keyed entries keyed in
    let same : entries ≡ keys = sym plain ∙ cc in
    subst (IsAccepted place heading block rest) same (record {
      parsed = parsed;
      ordered = ordered;
      keyed = keyed;
      values = ap (check_values place heading) (sym plain) ∙ values;
      sections = sections;
    })

IsAccepted-check_block :
    (place heading : String) (block rest : List String) (keys : Entries Scalar)
    → IsAccepted place heading block rest keys
    → check_block place heading (block, rest) ≡ ok keys
unfolding check_block
IsAccepted-check_block place heading block rest keys A =
    rw A.parsed
      (rw A.ordered (rw (from_entries-keyed keys A.keyed) (rw A.values (rw A.sections refl))))

abbrev keys_of : Result Finding → Entries Scalar
keys_of (ok f) = f.keys
keys_of (refused place reason) = []

abbrev line_of : Result Finding → ℕ
line_of (ok f) = f.line
line_of (refused place reason) = 0

-- A finding that is accepted holds what its block holds.
pub parse_finding-IsAccepted :
    (heading : String) (body : List String) (n : ℕ) (f : Finding)
    → parse_finding heading body n ≡ ok f
    → (block rest : List String) × IsAccepted (before " — " heading) heading block rest f.keys
unfolding parse_finding
parse_finding-IsAccepted heading body n f h =
    let ((block, rest), read, h₁) = ok-bind (read_block (before " — " heading) body) _ f h in
    let (keys, checked, result) = ok-bind (check_block _ heading (block, rest)) _ f h₁ in
    (
      block,
      rest,
      subst (IsAccepted _ heading block rest) (ap keys_of result)
          (check_block-IsAccepted _ heading block rest keys checked),
    )

-- Where a finding stands does not matter for its keys.
pub parse_finding-line :
    (heading : String) (body : List String) (n m : ℕ) (f : Finding)
    → parse_finding heading body n ≡ ok f
    → parse_finding heading body m ≡ ok (record { keys = f.keys; line = m })
unfolding parse_finding
parse_finding-line heading body n m f h =
    let (found, read, h₁) = ok-bind (read_block (before " — " heading) body) _ f h in
    let (keys, checked, result) = ok-bind (check_block _ heading found) _ f h₁ in
    rw read (rw checked (ap (λ ks. ok (record { keys = ks; line = m })) (ap keys_of result)))

module _ (line value : String) (L : IsFiledLine line value) where
  marked-IsAccepted :
      (place heading : String) (block rest : List String) (keys : Entries Scalar)
      → IsAccepted place heading block rest keys
      → IsAccepted place heading (set_filed line block) rest (insert "filed" (text value) keys)
  marked-IsAccepted place heading block rest keys A =
      let parts = names-IsPart place block keys A.parsed in
      let (cwe, filed, order) = check_keys-ordered place (names keys) A.ordered parts in
      record {
        parsed = parse_key_block-set_filed line value L place block keys A.parsed;
        ordered = check_keys-insert place (text value) keys cwe filed order;
        keyed = insert-IsKeyed "filed" (text value) keys A.keyed;
        values = check_values-insert place heading (text value) keys ∙ A.values;
        sections = A.sections;
      }

  abbrev filed_at : ℕ → Entries Scalar → Result Finding
  filed_at m keys = ok (record { keys = insert "filed" (text value) keys; line = m })

  -- The lines of a finding that is accepted, marked and read again.
  pub parse_finding-marked :
      (heading : String) (body : List String) (n : ℕ) (f : Finding)
      → parse_finding heading body n ≡ ok f
      → All Plain body
      → (body' : List String) × (mark_block line body ≡ some body')
        × All Plain body'
        × ((m : ℕ)
            → parse_finding heading body' m
              ≡ ok (record { keys = insert "filed" (text value) f.keys; line = m }))
        × (f.line ≡ n)
  unfolding parse_finding
  parse_finding-marked heading body n f h plain =
      let place = before " — " heading in
      let ((block, rest), read, h₁) = ok-bind (read_block place body) _ f h in
      let (keys, checked, result) = ok-bind (check_block place heading (block, rest)) _ f h₁ in
      let (lines, opened, closed) =
        ok-bind (require_some (after_blanks "```yaml" body) place _) _ (block, rest) read in
      let (body', lines', marked, reopened, reclosed, plain') =
        mark_block-lem line body lines block rest (filed-IsNoFence line value L)
          (filed-IsNoHeading line value L) plain (require_some-ok _ place _ lines opened)
          (require_some-ok _ place _ (block, rest) closed) in
      let again = IsAccepted-check_block place heading (set_filed line block) rest _ (
        marked-IsAccepted place heading block rest keys
          (check_block-IsAccepted place heading block rest keys checked)) in
      (
        body',
        marked,
        plain',
        λ m. rw reopened (rw reclosed (rw again (ap (filed_at m) (ap keys_of result)))),
        sym (ap line_of result),
      )
