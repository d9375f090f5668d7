-- ===== src/Audit/Marking.antt =====
-- How a mark changes the lines of a report: only the block of the finding that begins next.
use release_ops.Common.{
  ℕ, zero, suc, ◌+◌, String, ◌==◌, eq_iff, ◌≡◌, refl, sym, ap, subst, ◌∙◌, true, false, inl, inr,
  List, [], ◌∷◌, ◌++◌, Option, none, some, Bool-cases, Option-cases, All, All-append,
  All-append_split, length, arith,
}
use mathlib.Core.List.{append_assoc}
use release_ops.Common.Text.{is_empty_text, trim, starts_with, is_space}
use release_ops.Audit.Finding.{break_at, after_blanks}
use release_ops.Audit.Command.{set_filed, put_block, cons_line, mark_block, mark_lines}
use release_ops.Audit.Lines.{break_at-front, break_at-append, Plain}

-- What holds of the lines of a block and of the new line holds of the lines of the marked block.
pub All-set_filed :
    (P : String → Type 0) (line : String) (block : List String)
    → P line
    → All P block
    → All P (set_filed line block)
unfolding set_filed
All-set_filed P line [] h hs = (h, tt)
All-set_filed P line (key ∷ keys) h (k, ks) = elim (Bool-cases (starts_with key "filed:")) [
  | inl e ↦ rw e (h, ks)
  | inr n ↦ rw n (k, All-set_filed P line keys h ks)
]

cons_line-some :
    (line : String) (o : Option (List String)) (lines : List String)
    → cons_line line o ≡ some lines
    → (rest : List String) × (o ≡ some rest) × (line ∷ rest ≡ lines)
cons_line-some line none lines h = absurd (cc)
cons_line-some line (some rest) lines h = (rest, refl, cc)

put_block-append :
    (line : String) (lines more marked : List String)
    → put_block line (break_at "```" lines) ≡ some marked
    → put_block line (break_at "```" (lines ++ more)) ≡ some (marked ++ more)
put_block-append line lines more marked h = elim (Option-cases (break_at "```" lines)) [
  | inl none_found ↦
      let stuck : none ≡ some marked = sym (ap (put_block line) none_found) ∙ h in absurd (cc)
  | inr ((block, rest), found) ↦
      let (front, whole) = break_at-front "```" lines block rest found in
      let same : some (set_filed line block ++ ("```" ∷ rest)) ≡ some marked =
        sym (ap (put_block line) found) ∙ h in
      let longer : lines ++ more ≡ block ++ ("```" ∷ (rest ++ more)) =
        ap (λ ls. ls ++ more) whole ∙ append_assoc block ("```" ∷ rest) more in
      ap (λ ls. put_block line (break_at "```" ls)) longer
      ∙ ap (put_block line) (break_at-append "```" block (rest ++ more) front)
      ∙ ap some (sym (append_assoc (set_filed line block) ("```" ∷ rest) more))
      ∙ ap (λ o. elim o [ none ↦ none | some ls ↦ some (ls ++ more) ]) same
]

-- The search for the block goes no further than it has to.
pub mark_block-append :
    (line : String) (body more marked : List String)
    → mark_block line body ≡ some marked
    → mark_block line (body ++ more) ≡ some (marked ++ more)
unfolding mark_block
mark_block-append line [] more marked h = absurd (cc)
mark_block-append line (first ∷ body) more marked h = elim (Bool-cases (first == "```yaml")) [
  | inl e ↦
      let step : cons_line first (put_block line (break_at "```" body)) ≡ some marked =
        sym (rw e refl) ∙ h in
      let (rest, found, same) = cons_line-some first _ marked step in
      rw e (
        ap (cons_line first) (put_block-append line body more rest found)
        ∙ ap (λ ls. some (ls ++ more)) same)
  | inr n ↦
      let step : cons_line first (mark_block line body) ≡ some marked = sym (rw n refl) ∙ h in
      let (rest, found, same) = cons_line-some first _ marked step in
      rw n (
        ap (cons_line first) (mark_block-append line body more rest found)
        ∙ ap (λ ls. some (ls ++ more)) same)
]

-- Lines in front are counted and stay.
pub mark_lines-append :
    (line : String) (front lines marked : List String) (n : ℕ)
    → mark_lines n line lines ≡ some marked
    → mark_lines (length front + n) line (front ++ lines) ≡ some (front ++ marked)
unfolding mark_lines
mark_lines-append line [] lines marked n h =
    subst (λ k. mark_lines k line lines ≡ some marked) (omega arith) h
mark_lines-append line (first ∷ front) lines marked n h =
    let counted : suc (length front + n) ≡ suc (length front) + n = omega arith in
    subst (λ k. mark_lines k line (first ∷ (front ++ lines)) ≡ some (first ∷ (front ++ marked)))
      counted (ap (cons_line first) (mark_lines-append line front lines marked n h))

-- A line that opens a block is not blank.
opening-IsNotBlank :
    (line : String) → (line == "```yaml") ≡ true → is_empty_text (trim line) ≡ false
unfolding trim is_space
opening-IsNotBlank line h = rw ((eq_iff line "```yaml").0 h) refl

-- The marked block, read again.
pub mark_block-lem :
    (line : String) (body lines block rest : List String)
    → (line == "```" ≡ false)
    → Plain line
    → All Plain body
    → after_blanks "```yaml" body ≡ some lines
    → break_at "```" lines ≡ some (block, rest)
    → (body' lines' : List String) × (mark_block line body ≡ some body')
      × (after_blanks "```yaml" body' ≡ some lines')
      × (break_at "```" lines' ≡ some (set_filed line block, rest))
      × All Plain body'
unfolding mark_block after_blanks
mark_block-lem line [] lines block rest other plain all opened closed = absurd (cc)
mark_block-lem line (first ∷ body) lines block rest other plain all opened closed =
    elim (Bool-cases (first == "```yaml")) [
      | inl e ↦
          let filled = opening-IsNotBlank first e in
          let here : some body ≡ some lines = sym (rw filled (rw e refl)) ∙ opened in
          let same : lines ≡ body = cc in
          let found : break_at "```" body ≡ some (block, rest) =
            sym (ap (break_at "```") same) ∙ closed in
          let (front, whole) = break_at-front "```" body block rest found in
          let (kept, after) =
            All-append_split Plain block ("```" ∷ rest) (subst (All Plain) whole all.1) in
          let put = set_filed line block ++ ("```" ∷ rest) in
          (
            first ∷ put,
            put,
            rw e (ap (λ o. cons_line first (put_block line o)) found),
            rw filled (rw e refl),
            break_at-append "```" (set_filed line block) rest
                (All-set_filed (λ l. l == "```" ≡ false) line block other front),
            (
              all.0,
              All-append Plain (set_filed line block) ("```" ∷ rest)
                  (All-set_filed Plain line block plain kept) after,
            ),
          )
      | inr n ↦ elim (Bool-cases (is_empty_text (trim first))) [
        | inl blank ↦
            let later : after_blanks "```yaml" body ≡ some lines = sym (rw blank refl) ∙ opened in
            let (body', lines', marked, reopened, closed_again, plain_again) =
              mark_block-lem line body lines block rest other plain all.1 later closed in
            (
              first ∷ body',
              lines',
              rw n (ap (cons_line first) marked),
              rw blank reopened,
              closed_again,
              (all.0, plain_again),
            )
        | inr filled ↦
            let stuck : none ≡ some lines = sym (rw filled (rw n refl)) ∙ opened in absurd (cc)
      ]
    ]

-- What holds of the lines of a report and of the new line holds of the lines of the marked report.
All-put_block :
    (P : String → Type 0) (line : String) (lines marked : List String)
    → P line
    → All P lines
    → put_block line (break_at "```" lines) ≡ some marked
    → All P marked
All-put_block P line lines marked p all h = elim (Option-cases (break_at "```" lines)) [
  | inl none_found ↦
      let stuck : none ≡ some marked = sym (ap (put_block line) none_found) ∙ h in absurd (cc)
  | inr ((block, rest), found) ↦
      let (front, whole) = break_at-front "```" lines block rest found in
      let (kept, after) = All-append_split P block ("```" ∷ rest) (subst (All P) whole all) in
      let same : some (set_filed line block ++ ("```" ∷ rest)) ≡ some marked =
        sym (ap (put_block line) found) ∙ h in
      let here : set_filed line block ++ ("```" ∷ rest) ≡ marked = cc in
      subst (All P) here (
        All-append P (set_filed line block) ("```" ∷ rest) (All-set_filed P line block p kept)
          after)
]

All-mark_block :
    (P : String → Type 0) (line : String) (lines marked : List String)
    → P line
    → All P lines
    → mark_block line lines ≡ some marked
    → All P marked
unfolding mark_block
All-mark_block P line [] marked p all h = absurd (cc)
All-mark_block P line (first ∷ lines) marked p (q, all) h = elim (Bool-cases (first == "```yaml")) [
  | inl e ↦
      let step : cons_line first (put_block line (break_at "```" lines)) ≡ some marked =
        sym (rw e refl) ∙ h in
      let (rest, found, same) = cons_line-some first _ marked step in
      subst (All P) same (q, All-put_block P line lines rest p all found)
  | inr n ↦
      let step : cons_line first (mark_block line lines) ≡ some marked = sym (rw n refl) ∙ h in
      let (rest, found, same) = cons_line-some first _ marked step in
      subst (All P) same (q, All-mark_block P line lines rest p all found)
]

pub All-mark_lines :
    (P : String → Type 0) (n : ℕ) (line : String) (lines marked : List String)
    → P line
    → All P lines
    → mark_lines n line lines ≡ some marked
    → All P marked
unfolding mark_lines
All-mark_lines P zero line lines marked p all h = All-mark_block P line lines marked p all h
All-mark_lines P (suc n) line [] marked p all h = absurd (cc)
All-mark_lines P (suc n) line (first ∷ lines) marked p (q, all) h =
    let (rest, found, same) = cons_line-some first (mark_lines n line lines) marked h in
    subst (All P) same (q, All-mark_lines P n line lines rest p all found)
