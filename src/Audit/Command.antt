-- ===== src/Audit/Command.antt =====
-- main of scripts/audit-report.mjs, and what the script does with a ReportError.
use Prim.Native.String
use release_ops.Common.{
  ℕ, zero, suc, Char, code, String, ◌==◌, Bool, true, false, not, ◌&&◌, ◌||◌, List, [], ◌∷◌, ◌++◌,
  map, any, find, length, Option, none, some, is_some, if◌then◌else◌, leb, eqb, ◌or_else◌,
}
use release_ops.Common.Text.{is_empty_text, starts_with, split, join}
use release_ops.Common.Json.{Entries, lookup, insert}
use release_ops.Dashboard.PageSize.{to_decimal}
use release_ops.Audit.Result.{Result, ok, refused, ◌>>=◌, ◌>>◌, pure, fail, require, require_some}
use release_ops.Audit.Scalar.{text, shown}
use release_ops.Audit.Finding.{Finding, shown_or, slice, break_at, concat, is_true}
use release_ops.Audit.Report.{Report, is_digit, parse_report}

-- The files with their content, and the paths that are there but cannot be read.
pub record Disk : Type 0 where
  pub files : Entries String
  pub unreadable : List String

-- The path of a run's report, and whether a file can be written.
pub record Host : Type 0 where
  pub by_run : String → String
  pub can_write : String → Bool

-- How the process ends: with a code, by an error of the platform, or never.
pub data Ending : Type 0 where
  exits : ℕ → Ending
  throws never : Ending

pub record Run : Type 0 where
  pub ending : Ending
  pub printed : List String
  pub errors : List String
  pub disk : Disk

abbrev pub exists : Disk → String → Bool
exists disk path = is_some (lookup path disk.files) || any (λ p. p == path) disk.unreadable

-- An argument that is there and not empty.
abbrev pub given : Option String → Option String
given none = none
given (some arg) = if is_empty_text arg then none else some arg

unfoldable pub resolve_report : Host → Disk → Option String → Result String
unfolding lookup
resolve_report host disk arg = require_some (given arg) "arguments" "no report given" >>= λ path.
    if exists disk path
    then pure path
    else if exists disk (host.by_run path)
    then pure (host.by_run path)
    else fail "arguments" (concat ("no report at " ∷ path ∷ " or " ∷ host.by_run path ∷ []))

abbrev pub is_lower_or_digit : Char → Bool
is_lower_or_digit c = is_digit c || (leb b'a' (code c) && leb (code c) b'z')

-- `^…$` for a pattern in which an x stands for `[a-z0-9]`, and another character for itself.
unfoldable pub is_like : String → String → Bool
is_like String.[] String.[] = true
is_like String.[] (String.◌∷◌ c s) = false
is_like (String.◌∷◌ p ps) String.[] = false
is_like (String.◌∷◌ p ps) (String.◌∷◌ c s) =
    (if eqb (code p) b'x' then is_lower_or_digit c else eqb (code p) (code c)) && is_like ps s

-- `^\d*$`
unfoldable pub are_digits : String → Bool
are_digits String.[] = true
are_digits (String.◌∷◌ c s) = is_digit c && are_digits s

abbrev pub is_task : String → Bool
is_task value = starts_with value "RO-"

abbrev pub is_advisory : String → Bool
is_advisory value = starts_with value "GHSA-"

-- `/^(RO-\d+|GHSA-[a-z0-9]{4}-[a-z0-9]{4}-[a-z0-9]{4})$/`
unfoldable pub is_filed_value : String → Bool
unfolding is_like are_digits slice starts_with
is_filed_value value =
    (is_task value && (not (is_empty_text (slice 3 value)) && are_digits (slice 3 value)))
    || (is_advisory value && is_like "xxxx-xxxx-xxxx" (slice 5 value))

abbrev pub filed_line : String → String
filed_line value =
    String.◌++◌ "filed: "
      (if is_task value then String.◌++◌ "\"" (String.◌++◌ value "\"") else value)

-- The keys of a finding, where the line takes the place of the first that begins with `filed:`, or
-- is the last.
unfoldable pub set_filed : String → List String → List String
set_filed line [] = line ∷ []
set_filed line (key ∷ keys) =
    let rest = set_filed line keys in if starts_with key "filed:" then line ∷ keys else key ∷ rest

abbrev pub put_block : String → Option (List String × List String) → Option (List String)
put_block line none = none
put_block line (some (block, rest)) = some (set_filed line block ++ ("```" ∷ rest))

abbrev pub cons_line : String → Option (List String) → Option (List String)
cons_line line none = none
cons_line line (some lines) = some (line ∷ lines)

-- The block that begins next; without one, or without its end, the search never ends.
unfoldable pub mark_block : String → List String → Option (List String)
unfolding break_at set_filed
mark_block line [] = none
mark_block line (first ∷ lines) =
    let here = put_block line (break_at "```" lines) in
    let later = mark_block line lines in
    cons_line first (if first == "```yaml" then here else later)

-- The same from a line on, counted from 0.
unfoldable pub mark_lines : ℕ → String → List String → Option (List String)
unfolding mark_block
mark_lines zero line lines = mark_block line lines
mark_lines (suc n) line [] = none
mark_lines (suc n) line (first ∷ lines) = cons_line first (mark_lines n line lines)

abbrev pub is_withheld : Finding → Bool
is_withheld f = is_true (lookup "withhold" f.keys)

-- `f.id === id`
abbrev pub has_id : String → Finding → Bool
has_id id f = elim (lookup "id" f.keys) [ some (text s) ↦ s == id | _ ↦ false ]

abbrev pub both_given : Option String → Option String → Result (String × String)
both_given id value = require_some (given id) "arguments" "mark needs <id> and <value>" >>= λ i.
    require_some (given value) "arguments" "mark needs <id> and <value>" >>= λ v. pure (i, v)

-- The checks of `mark`: the finding that may be filed so.
unfoldable pub to_mark : Report → String → String → Result Finding
unfolding is_filed_value
to_mark report id value = do
  require (is_filed_value value) "arguments" (String.◌++◌ "bad filed value " value)
  f ← require_some (find (has_id id) report.findings) "arguments" (String.◌++◌ "no finding " id)
  require (not (is_withheld f && is_task value)) id
      "a withheld finding is never filed as a Kaneo task"
  require (not (not (is_withheld f) && is_advisory value)) id
      "a public finding is filed as a Kaneo task"
  pure f

-- The report with the mark.
unfoldable pub marked : String → Finding → String → Option String
unfolding mark_lines
marked content f value = elim (mark_lines f.line (filed_line value) (split b'\n' content)) [
  | none ↦ none
  | some lines ↦ some (join "\n" lines)
]

abbrev pub printing : Disk → List String → Run
printing disk lines = record { ending = exits 0; printed = lines; errors = []; disk = disk }

abbrev pub stopped : Disk → Ending → Run
stopped disk ending = record { ending = ending; printed = []; errors = []; disk = disk }

-- The end of `mark`: the marked report is read again before it is written.
abbrev pub save : Host → Disk → String → String → String → String → Result Run
save host disk file id value updated = parse_report updated >>= λ report. pure (
    if host.can_write file
    then printing (record disk { files = insert file updated disk.files })
        (concat (id ∷ " filed as " ∷ value ∷ []) ∷ [])
    else stopped disk throws)

abbrev pub on_marked : Host → Disk → String → String → String → Option String → Result Run
on_marked host disk file id value none = ok (stopped disk never)
on_marked host disk file id value (some updated) = save host disk file id value updated

unfoldable pub mark :
    Host → Disk → String → String → Report → Option String → Option String → Result Run
unfolding to_mark marked insert
mark host disk file content report id value = do
  (i, v) ← both_given id value
  f ← to_mark report i v
  on_marked host disk file i v (marked content f v)

abbrev pub list_line : Finding → String
list_line f = join "\t" (
    shown_or (lookup "id" f.keys)
    ∷ shown_or (lookup "severity" f.keys)
    ∷ (if is_withheld f then "withheld" else "public")
    ∷ shown (lookup "filed" f.keys or_else text "-")
    ∷ shown_or (lookup "title" f.keys)
    ∷ [])

abbrev pub check_line : String → Report → String
check_line file report =
    concat ("ok: " ∷ to_decimal (length report.findings) ∷ " findings in " ∷ file ∷ [])

-- An element of a list, where there is one.
abbrev pub nth : ℕ → List String → Option String
nth n [] = none
nth zero (x ∷ xs) = some x
nth (suc n) (x ∷ xs) = nth n xs

abbrev pub is_command : String → List String → Bool
is_command name [] = false
is_command name (first ∷ rest) = first == name

-- What a command does with a report that was accepted.
abbrev pub run_command : Host → Disk → String → String → Report → List String → Result Run
run_command host disk file content report argv =
    if is_command "check" argv
    then pure (printing disk (check_line file report ∷ []))
    else if is_command "list" argv
    then pure (printing disk (map list_line report.findings))
    else mark host disk file content report (nth 2 argv) (nth 3 argv)

abbrev pub on_content : Host → Disk → List String → String → Option String → Result Run
on_content host disk argv file none = ok (stopped disk throws)
on_content host disk argv file (some content) =
    parse_report content >>= λ report. run_command host disk file content report argv

abbrev pub read_and_run : Host → Disk → List String → String → Result Run
read_and_run host disk argv file = on_content host disk argv file (lookup file disk.files)

-- A ReportError is printed, and the exit code is 1.
abbrev pub caught : Disk → Result Run → Run
caught disk (ok run) = run
caught disk (refused place reason) = record {
  ending = exits 1;
  printed = [];
  errors = concat ("refused: " ∷ place ∷ ": " ∷ reason ∷ []) ∷ [];
  disk = disk;
}

unfoldable pub main : Host → List String → Disk → Run
unfolding resolve_report mark
main host argv disk =
    if is_command "check" argv || is_command "list" argv || is_command "mark" argv
    then caught disk (resolve_report host disk (nth 1 argv) >>= read_and_run host disk argv)
    else record {
      ending = exits 2;
      printed = [];
      errors =
          "usage: audit-report.mjs check|list <report> | mark <report> <id> <RO-n|GHSA-…>" ∷ [];
      disk = disk;
    }
