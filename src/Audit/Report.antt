-- ===== src/Audit/Report.antt =====
-- parseReport of scripts/audit-report.mjs.
use Prim.Native.String
use release_ops.Common.{
  ℕ, zero, suc, Char, code, ◌+◌, String, ◌==◌, Bool, true, false, ◌&&◌, ◌||◌, List, [], ◌∷◌, ◌++◌,
  map, keep, any, length, is_empty, if◌then◌else◌, leb,
}
use release_ops.Common.Text.{trim, starts_with, split, join}
use release_ops.Common.Json.{Entries, lookup}
use release_ops.Dashboard.PageSize.{to_decimal}
use release_ops.Audit.Result.{Result, ok, ◌>>=◌, ◌>>◌, pure, fail, require, require_some}
use release_ops.Audit.Scalar.{Scalar, parse_key_block}
use release_ops.Audit.Finding.{
  Finding, names, from_entries, shown_or, slice, break_at, list_of, concat, parse_finding,
}

abbrev pub front_keys : List String
front_keys = "run_id" ∷ "dev_sha" ∷ "scope" ∷ "units" ∷ "date" ∷ []

abbrev pub trailing : List String
trailing = "Refuted candidates" ∷ "Coverage" ∷ "Threat-model gaps" ∷ []

pub record Report : Type 0 where
  pub front : Entries Scalar
  pub findings : List Finding

-- The line of a heading, and the lines up to the next heading.
pub record Section : Type 0 where
  pub heading : String
  pub body : List String

abbrev pub is_heading : String → Bool
is_heading line = starts_with line "## "

abbrev pub add_line : String → List String × List Section → List String × List Section
add_line line (front, rest) =
    if is_heading line
    then ([], record { heading = line; body = front } ∷ rest)
    else (line ∷ front, rest)

-- The lines in front of the first heading, and the sections.
unfoldable pub sections : List String → List String × List Section
sections [] = ([], [])
sections (line ∷ lines) = add_line line (sections lines)

abbrev pub is_digit : Char → Bool
is_digit c = leb b'0' (code c) && leb (code c) b'9'

-- `[0-9a-f]`
abbrev pub is_lower_hex : Char → Bool
is_lower_hex c = is_digit c || (leb b'a' (code c) && leb (code c) b'f')

-- `[0-9a-f]{n}$`
unfoldable pub is_hex : ℕ → String → Bool
is_hex zero String.[] = true
is_hex zero (String.◌∷◌ c s) = false
is_hex (suc n) String.[] = false
is_hex (suc n) (String.◌∷◌ c s) = is_lower_hex c && is_hex n s

-- The front matter: its keys in order, and a full SHA.
unfoldable pub read_front : List String → Result (Entries Scalar)
unfolding parse_key_block from_entries is_hex lookup
read_front lines = do
  entries ← parse_key_block "front matter" lines
  require (join "," (names entries) == join "," front_keys) "front matter" (
      concat (
        "keys must be exactly "
        ∷ list_of front_keys
        ∷ " in order; got "
        ∷ list_of (names entries)
        ∷ []))
  require (is_hex 40 (shown_or (lookup "dev_sha" (from_entries entries)))) "front matter"
      "dev_sha must be a full 40-character SHA"
  pure (from_entries entries)

abbrev pub add_finding :
    Result Finding → Result (List Finding × List String) → Result (List Finding × List String)
add_finding found others = found >>= λ f. others >>= λ (fs, seen). pure (f ∷ fs, seen)

-- The loop over the sections after the summary: the findings, and the trailing sections seen. The
-- line of a section is counted from 0, and a finding starts on the next one.
unfoldable pub read_sections : ℕ → List String → List Section → Result (List Finding × List String)
unfolding slice
read_sections line seen [] = ok ([], seen)
read_sections line seen (s ∷ rest) =
    let name = slice 3 s.heading in
    let next = suc line + length s.body in
    let among_findings = read_sections next seen rest in
    let among_trailing = read_sections next (seen ++ (name ∷ [])) rest in
    if starts_with name "SA-"
    then require (is_empty seen) name "finding section after a trailing section"
      >> add_finding (parse_finding name s.body (suc line)) among_findings
    else if any (λ t. t == name) trailing
    then among_trailing
    else fail (String.◌++◌ "line " (to_decimal (suc line)))
        (concat ("unexpected ## section \"" ∷ name ∷ "\"" ∷ []))

-- `r.split('|')[1].trim()`, for a row, which begins with a bar.
abbrev pub second : List String → String
second (first ∷ cell ∷ cells) = trim cell
second _ = ""

-- The identifiers in the rows of the table.
abbrev pub row_ids : List String → List String
row_ids lines = map (λ r. second (split b'|' r)) (keep (λ l. starts_with l "| SA-") lines)

-- ` findings?:`
abbrev pub is_count_end : String → Bool
is_count_end s = starts_with s " finding:" || starts_with s " findings:"

-- `/^\d+ findings?:/`, where the mark says that a digit stands before.
unfoldable pub is_totals : Bool → String → Bool
is_totals read String.[] = false
is_totals read (String.◌∷◌ c s) =
    let rest = is_totals true s in
    if is_digit c then rest else read && is_count_end (String.◌∷◌ c s)

abbrev pub id_of : Finding → String
id_of f = shown_or (lookup "id" f.keys)

abbrev pub check_summary : List String → List Finding → Result (Unit {0})
check_summary lines findings =
    require (join "," (row_ids lines) == join "," (map id_of findings)) "## Summary"
      "table rows must list every finding id, in finding order"
    >> require (any (is_totals false) lines) "## Summary" "missing the totals line"

-- The sections, the first of which is the summary. The number is that of the line after the front
-- matter and what precedes the first heading.
unfoldable pub read_body : ℕ → List Section → Result (List Finding)
unfolding read_sections is_totals
read_body line [] = fail "## Summary" "first ## section must be \"## Summary\""
read_body line (summary ∷ rest) = do
  require (summary.heading == "## Summary") "## Summary" "first ## section must be \"## Summary\""
  (findings, seen) ← read_sections (suc line + length summary.body) [] rest
  require (join "," seen == join "," trailing) "trailing sections"
      (concat ("must be exactly " ∷ list_of (map (String.◌++◌ "## ") trailing) ∷ " in order" ∷ []))
  check_summary summary.body findings
  pure findings

-- The lines of the front matter and those after it.
abbrev pub split_front : List String → Result (List String × List String)
split_front [] = fail "front matter" "report must start with ---"
split_front (first ∷ lines) =
    require (first == "---") "front matter" "report must start with ---"
    >> require_some (break_at "---" lines) "front matter" "no closing ---"

abbrev pub body_start : List String × List Section → List String → ℕ
body_start (leading, rest) front = 2 + length front + length leading

unfoldable pub parse_lines : List String → Result Report
unfolding sections read_front read_body break_at
parse_lines lines = do
  (front_lines, body) ← split_front lines
  front ← read_front front_lines
  findings ← read_body (body_start (sections body) front_lines) ((sections body).1)
  pure (record { front = front; findings = findings })

unfoldable pub parse_report : String → Result Report
unfolding parse_lines
parse_report content = parse_lines (split b'\n' content)
