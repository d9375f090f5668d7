-- ===== src/Audit/Tests.antt =====
-- A report with a withheld finding and one for all, and runs of scripts/audit-report.mjs on it.
use Prim.Native.String
use release_ops.Common.{
  String, ◌≡◌, ◌≢◌, ◌⊎◌, refl, true, false, List, [], ◌∷◌, find, some, All, not, ◌&&◌,
}
use release_ops.Common.Text.{join, split, trim, starts_with}
use release_ops.Common.Json.{Entries, lookup, insert}
use release_ops.Audit.Result.{ok}
use release_ops.Audit.Scalar.{Scalar, text, flag, texts, match_line, parse_scalar, parse_value}
use release_ops.Audit.Finding.{Finding, parse_finding}
use release_ops.Audit.Report.{Report, parse_report}
use release_ops.Audit.Command.{
  Disk, Host, never, Run, has_id, printing, main, mark, to_mark, resolve_report, is_filed_value,
  is_withheld, is_task, is_advisory,
}
use release_ops.Audit.Sections.{all_keys}
use release_ops.Audit.Marks.{file_in}
use release_ops.Audit.Sound.{IsSound, parse_report-IsSound}
use release_ops.Audit.Recorded.{Recorded, main-IsOrderly, main-mark}

abbrev sections_after : List String → List String
sections_after rest =
    "### Summary" ∷ "### Entry point and attacker" ∷ "### Verified trace"
    ∷ "### Impact and preconditions" ∷ "### Fix direction" ∷ "### Test to write first"
    ∷ "### Verifier notes" ∷ "" ∷ rest

abbrev finding_lines : String → String → String → String → List String → List String
finding_lines id title severity withhold rest =
    String.◌++◌ "## " (String.◌++◌ id (String.◌++◌ " — " title))
    ∷ ""
    ∷ "```yaml"
    ∷ String.◌++◌ "id: " id
    ∷ String.◌++◌ "title: " title
    ∷ String.◌++◌ "severity: " severity
    ∷ "type: bug"
    ∷ "label: backend"
    ∷ String.◌++◌ "withhold: " withhold
    ∷ "verdict: CONFIRMED"
    ∷ "files: [a.go, b.go]"
    ∷ "related: []"
    ∷ "invariant: I1"
    ∷ "```"
    ∷ sections_after rest

abbrev sample_lines : List String
sample_lines =
    "---"
    ∷ "run_id: r1"
    ∷ "dev_sha: 0123456789abcdef0123456789abcdef01234567"
    ∷ "scope: all"
    ∷ "units: [u1]"
    ∷ "date: 2026-01-01"
    ∷ "---"
    ∷ "# Report"
    ∷ "## Summary"
    ∷ "| SA-1 | a |"
    ∷ "| SA-2 | b |"
    ∷ "2 findings: two"
    ∷ finding_lines "SA-1" "Secret" "high" "true" (
        finding_lines "SA-2" "Open" "low" "false"
          ("## Refuted candidates" ∷ "## Coverage" ∷ "## Threat-model gaps" ∷ []))

abbrev sample : String
sample = join "\n" sample_lines

abbrev keys_of : String → String → String → Scalar → Entries Scalar
keys_of id title severity withhold =
    ("id", text id)
    ∷ ("title", text title)
    ∷ ("severity", text severity)
    ∷ ("type", text "bug")
    ∷ ("label", text "backend")
    ∷ ("withhold", withhold)
    ∷ ("verdict", text "CONFIRMED")
    ∷ ("files", texts ("a.go" ∷ "b.go" ∷ []))
    ∷ ("related", texts [])
    ∷ ("invariant", text "I1")
    ∷ []

abbrev sample_report : Report
sample_report = record {
  front =
      ("run_id", text "r1")
      ∷ ("dev_sha", text "0123456789abcdef0123456789abcdef01234567")
      ∷ ("scope", text "all")
      ∷ ("units", texts ("u1" ∷ []))
      ∷ ("date", text "2026-01-01")
      ∷ [];
  findings =
      record { keys = keys_of "SA-1" "Secret" "high" (flag true); line = 13 }
      ∷ record { keys = keys_of "SA-2" "Open" "low" (flag false); line = 35 }
      ∷ [];
}

sample-accepted : parse_report sample ≡ ok sample_report
unfolding parse_report join split trim match_line parse_scalar parse_value starts_with insert
    parse_finding
sample-accepted = refl

parse_report-IsSound_example : All IsSound sample_report.findings
parse_report-IsSound_example = parse_report-IsSound sample sample_report sample-accepted

abbrev host : Host
host = record { by_run = λ run. String.◌++◌ "/audit/" run; can_write = λ path. true }

abbrev disk : Disk
disk = record { files = ("report.md", sample) ∷ []; unreadable = [] }

abbrev marking : Run
marking = main host ("mark" ∷ "report.md" ∷ "SA-2" ∷ "RO-7" ∷ []) disk

main-IsOrderly_example :
    (marking.ending ≢ never)
    × ((marking.disk ≡ disk)
        ⊎ Recorded host ("mark" ∷ "report.md" ∷ "SA-2" ∷ "RO-7" ∷ []) disk marking.disk)
main-IsOrderly_example = main-IsOrderly host ("mark" ∷ "report.md" ∷ "SA-2" ∷ "RO-7" ∷ []) disk

abbrev open_finding : Finding
open_finding = record { keys = keys_of "SA-2" "Open" "low" (flag false); line = 35 }

sample-found : find (has_id "SA-2") sample_report.findings ≡ some open_finding
unfolding lookup
sample-found = refl

task-IsValue : is_filed_value "RO-7" ≡ true
unfolding is_filed_value
task-IsValue = refl

report-there : lookup "report.md" disk.files ≡ some sample
unfolding lookup
report-there = refl

open-IsNotWithheld : (is_withheld open_finding && is_task "RO-7") ≡ false
unfolding lookup
open-IsNotWithheld = refl

task-IsNoAdvisory : (not (is_withheld open_finding) && is_advisory "RO-7") ≡ false
unfolding lookup starts_with
task-IsNoAdvisory = refl

main-mark_example :
    (updated : String) × (findings : List Finding) × (marking
      ≡ printing
          (record disk { files = insert "report.md" updated disk.files })
          ("SA-2 filed as RO-7" ∷ []))
    × (parse_report updated ≡ ok (record { front = sample_report.front; findings = findings }))
    × (all_keys findings ≡ file_in "SA-2" "RO-7" sample_report.findings)
main-mark_example =
    main-mark host disk "report.md" sample "SA-2" "RO-7" sample_report open_finding refl
      report-there refl sample-accepted refl sample-found task-IsValue open-IsNotWithheld
      task-IsNoAdvisory

-- A withheld finding is refused as a task, and the files stay.
withheld_stays : (main host ("mark" ∷ "report.md" ∷ "SA-1" ∷ "RO-7" ∷ []) disk).disk ≡ disk
unfolding main mark to_mark parse_report join split trim match_line parse_scalar parse_value
    starts_with insert parse_finding is_filed_value resolve_report lookup
withheld_stays = refl
