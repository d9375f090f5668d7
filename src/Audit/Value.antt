-- ===== src/Audit/Value.antt =====
-- The line that records what a finding was filed as is read as that value.
use Prim.Native.String.{[], ◌∷◌, ◌++◌}
use package.text.Mathlib.TextLemmas.{nil-append, cons-append}
use release_ops.Common.{
  Char, code, String, ◌==◌, eq_iff, ◌≡◌, refl, sym, ap, subst, ◌∙◌, Bool, true, false, not, ◌&&◌,
  ◌||◌, ◌⊎◌, inl, inr, some, eqb, leb, Bool-cases, arith,
}
use release_ops.Common.Text.{
  Chars, is_space, trim, trim_start, trim_end, starts_with, Lacks, onto, append-onto,
  starts_with-rest, starts_with-append,
}
use release_ops.Audit.Result.{ok}
use release_ops.Audit.Scalar.{
  text, is_line_end, is_one_line, until_comment, strip_comment, read_quoted, unescape,
  is_comment_end, parse_value, parse_scalar, key_name, match_line, parse_line,
}
use release_ops.Audit.Finding.{slice}
use release_ops.Audit.Report.{is_heading}
use release_ops.Audit.Command.{is_like, are_digits, is_filed_value, filed_line}

-- From the hyphen to the letter z, but for the backslash.
abbrev is_code : Char → Bool
is_code c = leb 0x2D (code c) && leb (code c) 0x7A && not (eqb (code c) 0x5C)

abbrev IsCode : Char → Type 0
IsCode c = is_code c ≡ true

is_space-IsCode : (c : Char) → IsCode c → is_space c ≡ false
unfolding is_space
is_space-IsCode c h = ground arith

is_line_end-IsCode : (c : Char) → IsCode c → is_line_end c ≡ false
is_line_end-IsCode c h = ground arith

are_digits-IsCode : (s : String) → are_digits s ≡ true → Chars IsCode s
unfolding are_digits
are_digits-IsCode [] h = tt
are_digits-IsCode (c ∷ s) h = (ground arith, are_digits-IsCode s (ground arith))

is_like-IsCode : (p s : String) → Chars IsCode p → is_like p s ≡ true → Chars IsCode s
unfolding is_like
is_like-IsCode [] [] k h = tt
is_like-IsCode [] (c ∷ s) k h = absurd (cc)
is_like-IsCode (p ∷ ps) [] k h = absurd (cc)
is_like-IsCode (p ∷ ps) (c ∷ s) (k, ks) h = (ground arith, is_like-IsCode ps s ks (ground arith))

both : (a b : Bool) → a && b ≡ true → (a ≡ true) × (b ≡ true)
both a b h = (ground arith, ground arith)

-- The two kinds of values.
abbrev IsValue : String → Type 0
IsValue value =
    ((rest : String) × (value ≡ onto "RO-" rest) × Chars IsCode rest)
    ⊎ ((rest : String) × (value ≡ onto "GHSA-" rest) × Chars IsCode rest)

is_filed_value-IsValue : (value : String) → is_filed_value value ≡ true → IsValue value
unfolding is_filed_value
is_filed_value-IsValue value h = elim (or-cases _ _ h) [
  | inl task ↦
      let (begins, after) = both _ _ task in
      let (rest, whole) = starts_with-rest value "RO-" begins in
      let (filled, digits) = both _ _ after in
      inl (
        rest,
        whole,
        are_digits-IsCode rest (ap (λ s. are_digits (slice 3 s)) (sym whole) ∙ digits),
      )
  | inr advisory ↦
      let (begins, after) = both _ _ advisory in
      let (rest, whole) = starts_with-rest value "GHSA-" begins in
      inr (
        rest,
        whole,
        is_like-IsCode "xxxx-xxxx-xxxx" rest pattern-IsCode
            (ap (λ s. is_like "xxxx-xxxx-xxxx" (slice 5 s)) (sym whole) ∙ after),
      )
]
  where
    pattern-IsCode : Chars IsCode "xxxx-xxxx-xxxx"
    pattern-IsCode = (
      refl,
      (
        refl,
        (
          refl,
          (
            refl,
            (refl, (refl, (refl, (refl, (refl, (refl, (refl, (refl, (refl, (refl, tt)))))))))),
          ),
        ),
      ),
    )

    or-cases : (a b : Bool) → a || b ≡ true → (a ≡ true) ⊎ (b ≡ true)
    or-cases true b h = inl refl
    or-cases false b h = inr h

Chars-append : (P : Char → Type 0) (s t : String) → Chars P s → Chars P t → Chars P (s ++ t)
Chars-append P [] t h k = subst (Chars P) (sym (nil-append t)) k
Chars-append P (c ∷ s) t (h, hs) k =
    subst (Chars P) (sym (cons-append c s t)) (h, Chars-append P s t hs k)

Chars-map : {P Q : Char → Type 0} → ((c : Char) → P c → Q c) → (s : String) → Chars P s → Chars Q s
Chars-map f [] h = tt
Chars-map f (c ∷ s) (h, hs) = (f c h, Chars-map f s hs)

abbrev NoSpace : Char → Type 0
NoSpace c = is_space c ≡ false

trim_end-NoSpace : (s : String) → Chars NoSpace s → trim_end s ≡ s
unfolding trim_end
trim_end-NoSpace [] h = refl
trim_end-NoSpace (c ∷ s) (h, hs) = rw (h, trim_end-NoSpace s hs) refl

trim-NoSpace : (s : String) → Chars NoSpace s → trim s ≡ s
unfolding trim trim_start
trim-NoSpace [] h = trim_end-NoSpace [] h
trim-NoSpace (c ∷ s) (h, hs) = rw h (trim_end-NoSpace (c ∷ s) (h, hs))

until_comment-NoSpace : (s : String) → Chars NoSpace s → until_comment s ≡ s
unfolding until_comment
until_comment-NoSpace [] h = refl
until_comment-NoSpace (c ∷ s) (h, hs) = rw (h, until_comment-NoSpace s hs) refl

abbrev NoLineEnd : Char → Type 0
NoLineEnd c = is_line_end c ≡ false

is_one_line-NoLineEnd : (s : String) → Chars NoLineEnd s → is_one_line s ≡ true
is_one_line-NoLineEnd [] h = refl
is_one_line-NoLineEnd (c ∷ s) (h, hs) = rw (h, is_one_line-NoLineEnd s hs) refl

read_quoted-IsCode : (s : String) → Chars IsCode s → read_quoted false (s ++ "\"") ≡ some (s, "")
unfolding read_quoted
read_quoted-IsCode [] h = refl
read_quoted-IsCode (c ∷ s) (h, hs) =
    let plain : eqb (code c) b'"' ≡ false = ground arith in
    let unescaped : eqb (code c) b'\\' ≡ false = ground arith in
    rw (cons-append c s "\"") (rw (plain, unescaped) (rw (read_quoted-IsCode s hs) refl))

unescape-IsCode : (s : String) → Chars IsCode s → unescape false s ≡ s
unfolding unescape
unescape-IsCode [] h = refl
unescape-IsCode (c ∷ s) (h, hs) =
    let plain : eqb (code c) b'\\' ≡ false = ground arith in rw (plain, unescape-IsCode s hs) refl

module _ (value : String) (codes : Chars IsCode value) where
  quoted_text : String
  quoted_text = "\"" ++ (value ++ "\"")

  quoted-onto : quoted_text ≡ onto "\"" (value ++ "\"")
  unfolding quoted_text
  quoted-onto = append-onto "\"" (value ++ "\"")

  with_quotes :
      (P : Char → Type 0)
      → ((c : Char) → IsCode c → P c)
      → P "\""
      → Chars P (onto "\"" (value ++ "\""))
  with_quotes P f q = (q, Chars-append P value "\"" (Chars-map f value codes) (q, tt))

  trim_quoted : trim (onto "\"" (value ++ "\"")) ≡ onto "\"" (value ++ "\"")
  unfolding is_space
  trim_quoted = trim-NoSpace _ (with_quotes NoSpace is_space-IsCode refl)

  parse_quoted : (place : String) → parse_scalar (onto "\"" (value ++ "\"")) place ≡ ok (text value)
  unfolding parse_scalar parse_value strip_comment is_comment_end starts_with
  parse_quoted place =
      rw trim_quoted (rw (read_quoted-IsCode value codes) (rw (unescape-IsCode value codes) refl))

differs_first :
    (s t : String) → starts_with t s ≡ false → (rest : String) → (onto s rest == t) ≡ false
differs_first s t h rest = elim (Bool-cases (onto s rest == t)) [
  | inl e ↦
      let same : onto s rest ≡ t = (eq_iff (onto s rest) t).0 e in
      let begins : starts_with t s ≡ true =
        subst (λ u. starts_with u s ≡ true) (append-onto s rest ∙ same)
          (starts_with-append s rest) in
      absurd (cc)
  | inr n ↦ n
]

parse_bare :
    (rest place : String)
    → Chars IsCode rest
    → parse_scalar (onto "GHSA-" rest) place ≡ ok (text (onto "GHSA-" rest))
unfolding parse_scalar parse_value strip_comment starts_with
parse_bare rest place h =
    let codes : Chars IsCode (onto "GHSA-" rest) = (refl, (refl, (refl, (refl, (refl, h))))) in
    let clean = Chars-map is_space-IsCode (onto "GHSA-" rest) codes in
    let trimmed = trim-NoSpace (onto "GHSA-" rest) clean in
    let uncommented = until_comment-NoSpace (onto "GHSA-" rest) clean in
    rw trimmed (
      rw uncommented (
        rw trimmed (
          rw (differs_first "GHSA-" "true" refl rest, differs_first "GHSA-" "false" refl rest)
            refl)))

-- The line, as far as it matters: what it holds is read as the value, and is one line.
pub record IsFiledLine (line value : String) : Type 0 where
  pub held : String
  pub whole : line ≡ onto "filed: " held
  pub one_line : Chars NoLineEnd held
  pub read : (place : String) → parse_scalar held place ≡ ok (text value)

pub filed_line-IsFiledLine :
    (value : String) → is_filed_value value ≡ true → IsFiledLine (filed_line value) value
unfolding starts_with
filed_line-IsFiledLine value h = elim (is_filed_value-IsValue value h) [
  | inl (rest, same, codes) ↦
      let all : Chars IsCode (onto "RO-" rest) = (refl, (refl, (refl, codes))) in
      subst (λ v. IsFiledLine (filed_line v) v) (sym same)
        (record {
          held = onto "\"" (onto "RO-" rest ++ "\"");
          whole =
              append-onto "filed: " ("\"" ++ (onto "RO-" rest ++ "\""))
              ∙ ap (onto "filed: ") (append-onto "\"" (onto "RO-" rest ++ "\""));
          one_line = with_quotes (onto "RO-" rest) all NoLineEnd is_line_end-IsCode refl;
          read = parse_quoted (onto "RO-" rest) all;
        })
  | inr (rest, same, codes) ↦
      subst (λ v. IsFiledLine (filed_line v) v) (sym same)
        (record {
          held = onto "GHSA-" rest;
          whole = append-onto "filed: " (onto "GHSA-" rest);
          one_line =
              (refl, (refl, (refl, (refl, (refl, Chars-map is_line_end-IsCode rest codes)))));
          read = λ place. parse_bare rest place codes;
        })
]

module _ (line value : String) (L : IsFiledLine line value) where
  pub parse_line-filed : (place : String) → parse_line place line ≡ ok ("filed", text value)
  unfolding match_line key_name is_space
  parse_line-filed place =
      rw L.whole
        (rw (is_one_line-NoLineEnd L.held L.one_line) (rw (L.read (place ++ " key filed")) refl))

  pub filed-begins : starts_with line "filed:" ≡ true
  unfolding starts_with
  filed-begins = rw L.whole refl

  pub filed-IsNoHeading : is_heading line ≡ false
  unfolding starts_with
  filed-IsNoHeading = rw L.whole refl

  pub filed-IsNoFence : (line == "```") ≡ false
  unfolding starts_with
  filed-IsNoFence = rw L.whole (differs_first "filed: " "```" refl L.held)

  pub filed-Lacks : Lacks b'\n' line
  filed-Lacks = subst (Lacks b'\n') (sym L.whole) (
    refl,
    (
      refl,
      (refl, (refl, (refl, (refl, (refl, Chars-map (λ c h. ground arith) L.held L.one_line))))),
    ),
  )
