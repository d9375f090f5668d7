-- ===== src/Audit/Refiled.antt =====
-- A finding that was marked, in the report that is read again.
use release_ops.Common.{
  ◌+◌, String, ◌≡◌, refl, sym, ap, ◌∙◌, true, inl, inr, List, [], ◌∷◌, ◌++◌, map, find, length,
  none, some, Bool-cases, All, arith,
}
use release_ops.Common.Text.{split, join, Lacks, split-Lacks, split-join}
use release_ops.Common.Json.{Entries, lookup}
use release_ops.Audit.Result.{ok}
use release_ops.Audit.Scalar.{Scalar, text}
use release_ops.Audit.Finding.{Finding, shown_or}
use release_ops.Audit.Report.{Report, check_summary, id_of, parse_lines, parse_report}
use release_ops.Audit.Command.{has_id, is_filed_value, filed_line, mark_lines, marked}
use release_ops.Audit.Lines.{flatten}
use release_ops.Audit.Marking.{mark_lines-append, All-mark_lines}
use release_ops.Audit.Value.{IsFiledLine, filed_line-IsFiledLine, filed-Lacks}
use release_ops.Audit.Filed.{other_key}
use release_ops.Audit.Sections.{all_keys}
use release_ops.Audit.Marks.{file_in, file_in-here, file_in-later, read_sections-Marked}
use release_ops.Audit.Parsed.{Parsed, start_of, parse_lines-Parsed, Parsed-parse_lines}

abbrev shown_id : Entries Scalar → String
shown_id keys = shown_or (lookup "id" keys)

ids_of_keys : (fs : List Finding) → map id_of fs ≡ map shown_id (all_keys fs)
ids_of_keys [] = refl
ids_of_keys (f ∷ fs) = ap (λ ids. id_of f ∷ ids) (ids_of_keys fs)

-- Marking changes no identifier.
file_in-ids :
    (id value : String) (fs : List Finding)
    → map shown_id (file_in id value fs) ≡ map shown_id (all_keys fs)
unfolding file_in
file_in-ids id value [] = refl
file_in-ids id value (f ∷ fs) = elim (Bool-cases (has_id id f)) [
  | inl here ↦
      ap (map shown_id) (file_in-here id value f fs here)
      ∙ ap (λ o. shown_or o ∷ map shown_id (all_keys fs)) (other_key "id" (text value) f.keys refl)
  | inr other ↦
      ap (map shown_id) (file_in-later id value f fs other)
      ∙ ap (λ ids. shown_id f.keys ∷ ids) (file_in-ids id value fs)
]

same_ids :
    (id value : String) (fs fs' : List Finding)
    → all_keys fs' ≡ file_in id value fs
    → map id_of fs' ≡ map id_of fs
same_ids id value fs fs' h =
    ids_of_keys fs' ∙ ap (map shown_id) h ∙ file_in-ids id value fs ∙ sym (ids_of_keys fs)

summary_of_ids :
    (lines : List String) (fs fs' : List Finding)
    → map id_of fs' ≡ map id_of fs
    → check_summary lines fs' ≡ check_summary lines fs
summary_of_ids lines fs fs' h = rw h refl

-- A report that was marked: the lines, and what they are read as.
pub record Refiled (id value line : String) (lines : List String) (report : Report) (f : Finding)
    : Type 0 where
  pub after : List String
  pub findings : List Finding
  pub lines_marked : mark_lines f.line line lines ≡ some after
  pub read : parse_lines after ≡ ok (record { front = report.front; findings = findings })
  pub filed : all_keys findings ≡ file_in id value report.findings

module _ (id value line : String) (L : IsFiledLine line value) where
  refile :
      (lines : List String) (report : Report) (f : Finding)
      → Parsed lines report
      → find (has_id id) report.findings ≡ some f
      → Refiled id value line lines report f
  refile lines report f P found =
      let start = start_of P.front_lines P.leading P.summary in
      let M =
        read_sections-Marked id line value L start [] P.rest report.findings P.seen f P.read
          P.split.1 found in
      let report' : Report = record { front = report.front; findings = M.findings } in
      let in_summary =
        mark_lines-append line (P.summary.heading ∷ P.summary.body) (flatten P.rest)
          (flatten M.after) M.offset M.lines in
      let in_body = mark_lines-append line P.leading _ _ _ in_summary in
      let in_fence = mark_lines-append line ("---" ∷ []) _ _ _ in_body in
      let in_lines = mark_lines-append line (P.first ∷ P.front_lines) _ _ _ in_fence in
      let unmarked =
        P.first ∷ (P.front_lines ++ ("---" ∷ (P.leading ++ flatten (P.summary ∷ P.rest)))) in
      let after =
        P.first ∷ (P.front_lines ++ ("---" ∷ (P.leading ++ flatten (P.summary ∷ M.after)))) in
      let placed : length (P.first ∷ P.front_lines)
            + (length {A = String} ("---" ∷ [])
                + (length P.leading + (length (P.summary.heading ∷ P.summary.body) + M.offset)))
          ≡ f.line =
        omega (arith, M.placed) in
      record {
        after = after;
        findings = M.findings;
        lines_marked =
            ap (mark_lines f.line line) P.whole
            ∙ ap (λ n. mark_lines n line unmarked) (sym placed)
            ∙ in_lines;
        read = Parsed-parse_lines after report' (record {
          first = P.first;
          front_lines = P.front_lines;
          leading = P.leading;
          summary = P.summary;
          rest = M.after;
          seen = P.seen;
          whole = refl;
          opened = P.opened;
          unfenced = P.unfenced;
          plain = P.plain;
          split = (P.split.0, M.split);
          front = P.front;
          headed = P.headed;
          read = M.read;
          trails = P.trails;
          summed =
              summary_of_ids P.summary.body report.findings M.findings
                (same_ids id value report.findings M.findings M.filed)
              ∙ P.summed;
        });
        filed = M.filed;
      }

split_of_join :
    (lines : List String)
    → All (Lacks b'\n') lines
    → (report : Report) → parse_lines lines ≡ ok report
    → split b'\n' (join "\n" lines) ≡ lines
unfolding parse_lines
split_of_join [] h report accepted = absurd (cc)
split_of_join (first ∷ lines) (h, hs) report accepted = split-join b'\n' "\n" first lines refl h hs

-- A finding of a report that was accepted can be marked with a proper value. The marked report is
-- accepted, and differs in nothing but the key `filed` of the first finding with the identifier.
pub parse_report-marked :
    (content id value : String) (report : Report) (f : Finding)
    → parse_report content ≡ ok report
    → is_filed_value value ≡ true
    → find (has_id id) report.findings ≡ some f
    → (updated : String) × (findings : List Finding) × (marked content f value ≡ some updated)
      × (parse_report updated ≡ ok (record { front = report.front; findings = findings }))
      × (all_keys findings ≡ file_in id value report.findings)
unfolding parse_report marked
parse_report-marked content id value report f h proper found =
    let L = filed_line-IsFiledLine value proper in
    let lines = split b'\n' content in
    let R =
      refile id value (filed_line value) L lines report f (parse_lines-Parsed lines report h)
        found in
    let apart =
      All-mark_lines (Lacks b'\n') f.line (filed_line value) lines R.after
        (filed-Lacks (filed_line value) value L) (split-Lacks b'\n' content) R.lines_marked in
    (
      join "\n" R.after,
      R.findings,
      ap (λ o. elim o [ none ↦ none | some ls ↦ some (join "\n" ls) ]) R.lines_marked,
      ap parse_lines (split_of_join R.after apart _ R.read) ∙ R.read,
      R.filed,
    )
