-- ===== src/Audit/Parsed.antt =====
-- What a report that is accepted consists of.
use release_ops.Common.{
  ℕ, suc, ◌+◌, String, ◌==◌, ◌≡◌, refl, sym, ap, subst, ◌∙◌, true, false, List, [], ◌∷◌, ◌++◌,
  length, All,
}
use release_ops.Common.Text.{join}
use release_ops.Audit.Result.{ok, ok-bind, require-then, require_some-ok}
use release_ops.Audit.Finding.{Finding, break_at}
use release_ops.Audit.Report.{
  Report, Section, sections, read_front, read_sections, read_body, trailing, check_summary,
  split_front, body_start, parse_lines,
}
use release_ops.Audit.Lines.{
  flatten, IsSection, Plain, break_at-front, break_at-append, sections-IsSection,
  sections_of_flatten,
}

abbrev pub start_of : List String → List String → Section → ℕ
start_of front_lines leading summary =
    suc (2 + length front_lines + length leading) + length summary.body

pub record Parsed (lines : List String) (report : Report) : Type 0 where
  pub first : String
  pub front_lines : List String
  pub leading : List String
  pub summary : Section
  pub rest : List Section
  pub seen : List String
  pub whole : lines ≡ first ∷ (front_lines ++ ("---" ∷ (leading ++ flatten (summary ∷ rest))))
  pub opened : (first == "---") ≡ true
  pub unfenced : All (λ l. l == "---" ≡ false) front_lines
  pub plain : All Plain leading
  pub split : All IsSection (summary ∷ rest)
  pub front : read_front front_lines ≡ ok report.front
  pub headed : (summary.heading == "## Summary") ≡ true
  pub read :
      read_sections (start_of front_lines leading summary) [] rest ≡ ok (report.findings, seen)
  pub trails : (join "," seen == join "," trailing) ≡ true
  pub summed : check_summary summary.body report.findings ≡ ok tt

-- The body of a report that is accepted.
record Body (line : ℕ) (ss : List Section) (findings : List Finding) : Type 0 where
  summary : Section
  rest : List Section
  seen : List String
  whole : ss ≡ summary ∷ rest
  headed : (summary.heading == "## Summary") ≡ true
  read : read_sections (suc line + length summary.body) [] rest ≡ ok (findings, seen)
  trails : (join "," seen == join "," trailing) ≡ true
  summed : check_summary summary.body findings ≡ ok tt

read_body-Body :
    (line : ℕ) (ss : List Section) (findings : List Finding)
    → read_body line ss ≡ ok findings
    → Body line ss findings
unfolding read_body
read_body-Body line [] findings h = absurd (cc)
read_body-Body line (summary ∷ rest) findings h =
    let (headed, h₁) = require-then (summary.heading == "## Summary") _ _ _ findings h in
    let ((fs, seen), read, h₂) =
      ok-bind (read_sections (suc line + length summary.body) [] rest) _ findings h₁ in
    let (trails, h₃) = require-then (join "," seen == join "," trailing) _ _ _ findings h₂ in
    let (_, summed, h₄) = ok-bind (check_summary summary.body fs) _ findings h₃ in
    let same : fs ≡ findings = cc in
    record {
      summary = summary;
      rest = rest;
      seen = seen;
      whole = refl;
      headed = headed;
      read = read ∙ ap (λ f. ok (f, seen)) same;
      trails = trails;
      summed = ap (check_summary summary.body) (sym same) ∙ summed;
    }

pub parse_lines-Parsed :
    (lines : List String) (report : Report) → parse_lines lines ≡ ok report → Parsed lines report
unfolding parse_lines
parse_lines-Parsed [] report h = absurd (cc)
parse_lines-Parsed (first ∷ lines) report h =
    let ((front_lines, body), front_read, h₁) = ok-bind (split_front (first ∷ lines)) _ report h in
    let (opened, closed) = require-then (first == "---") _ _ _ (front_lines, body) front_read in
    let (front, fronted, h₂) = ok-bind (read_front front_lines) _ report h₁ in
    let (findings, bodied, result) =
      ok-bind (read_body (body_start (sections body) front_lines) (sections body).1) _ report h₂ in
    let (unfenced, split_lines) =
      break_at-front "---" lines front_lines body
        (require_some-ok (break_at "---" lines) _ _ (front_lines, body) closed) in
    let (plain, split, joined) = sections-IsSection body in
    let B = read_body-Body _ _ findings bodied in
    let made : record { front = front; findings = findings } ≡ report = cc in
    subst (Parsed (first ∷ lines)) made (record {
      first = first;
      front_lines = front_lines;
      leading = (sections body).0;
      summary = B.summary;
      rest = B.rest;
      seen = B.seen;
      whole =
          ap (λ ls. first ∷ ls) split_lines
          ∙ ap (λ b. first ∷ (front_lines ++ ("---" ∷ b)))
              (sym joined ∙ ap (λ ss. (sections body).0 ++ flatten ss) B.whole);
      opened = opened;
      unfenced = unfenced;
      plain = plain;
      split = subst (All IsSection) B.whole split;
      front = fronted;
      headed = B.headed;
      read = B.read;
      trails = B.trails;
      summed = B.summed;
    })

pub Parsed-parse_lines :
    (lines : List String) (report : Report) → Parsed lines report → parse_lines lines ≡ ok report
unfolding parse_lines read_body
Parsed-parse_lines lines report P =
    let body = P.leading ++ flatten (P.summary ∷ P.rest) in
    rw P.whole (
      rw P.opened (
        rw (break_at-append "---" P.front_lines body P.unfenced) (
          rw P.front (
            rw (sections_of_flatten P.leading (P.summary ∷ P.rest) P.plain P.split)
              (rw P.headed (rw P.read (rw P.trails (rw P.summed refl))))))))
