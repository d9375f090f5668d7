-- ===== src/Audit/Recorded.antt =====
-- What a run of scripts/audit-report.mjs does to the files.
use release_ops.Common.{
  ℕ, String, ◌≡◌, ◌≢◌, ◌⊎◌, refl, sym, ap, subst, ◌∙◌, Bool, true, false, not, ◌&&◌, ◌||◌, inl, inr,
  List, [], ◌∷◌, map, find, Option, none, some, Bool-cases, Option-cases, arith,
}
use release_ops.Common.Text.{is_empty_text}
use release_ops.Common.Json.{lookup, insert}
use release_ops.Audit.Result.{
  Result, ok, refused, fail, require_some, ◌>>=◌, ok-bind, require-then, require_some-ok,
}
use release_ops.Audit.Finding.{Finding, concat}
use release_ops.Audit.Report.{Report, parse_report}
use release_ops.Audit.Command.{
  Disk, Host, exists, given, exits, throws, never, Run, has_id, is_filed_value, is_task,
  is_advisory, is_withheld, to_mark, save, mark, stopped, printing, both_given, run_command,
  on_content, on_marked, check_line, list_line, read_and_run, caught, is_command, nth,
  resolve_report, main,
}
use release_ops.Audit.Sections.{all_keys}
use release_ops.Audit.Marks.{file_in}
use release_ops.Audit.Refiled.{parse_report-marked}

-- The checks before a finding is marked.
record MayMark (report : Report) (id value : String) (f : Finding) : Type 0 where
  proper : is_filed_value value ≡ true
  found : find (has_id id) report.findings ≡ some f
  secret : is_withheld f ≡ true → is_task value ≡ false
  open_to_all : is_withheld f ≡ false → is_advisory value ≡ false

not_both : (a b : Bool) → not (a && b) ≡ true → a ≡ true → b ≡ false
not_both true b h k = ground arith
not_both false b h k = absurd (cc)

not_neither : (a b : Bool) → not (not a && b) ≡ true → a ≡ false → b ≡ false
not_neither true b h k = absurd (cc)
not_neither false b h k = ground arith

to_mark-MayMark :
    (report : Report) (id value : String) (f : Finding)
    → to_mark report id value ≡ ok f
    → MayMark report id value f
unfolding to_mark
to_mark-MayMark report id value f h =
    let (proper, h₁) = require-then (is_filed_value value) _ _ _ f h in
    let (g, found, h₂) = ok-bind (require_some (find (has_id id) report.findings) _ _) _ f h₁ in
    let (secret, h₃) = require-then (not (is_withheld g && is_task value)) _ _ _ f h₂ in
    let (open_to_all, h₄) =
      require-then (not (not (is_withheld g) && is_advisory value)) _ _ _ f h₃ in
    let same : g ≡ f = cc in
    subst (MayMark report id value) same (record {
      proper = proper;
      found = require_some-ok _ _ _ g found;
      secret = not_both _ _ secret;
      open_to_all = not_neither _ _ open_to_all;
    })

-- The file that the arguments name, or the report of the run that they name.
pub record Chosen (host : Host) (argv : List String) (disk : Disk) (file : String) : Type 0 where
  pub path : String
  pub asked_path : nth 1 argv ≡ some path
  pub located : (path ≡ file) ⊎ ((exists disk path ≡ false) × (host.by_run path ≡ file))

given-some : (o : Option String) (arg : String) → given o ≡ some arg → o ≡ some arg
given-some none arg h = absurd (cc)
given-some (some a) arg h = ground arith

given-ok :
    (o : Option String) (place reason arg : String)
    → require_some (given o) place reason ≡ ok arg
    → o ≡ some arg
given-ok o place reason arg h = given-some o arg (require_some-ok _ place reason arg h)

both_given-ok :
    (id value : Option String) (i v : String)
    → both_given id value ≡ ok (i, v)
    → (id ≡ some i) × (value ≡ some v)
both_given-ok id value i v h =
    let (j, first, h₁) = ok-bind (require_some (given id) _ _) _ (i, v) h in
    let (w, second, h₂) = ok-bind (require_some (given value) _ _) _ (i, v) h₁ in
    let same : (j, w) ≡ (i, v) = ap (pair_or (i, v)) h₂ in
    (
      given-ok id _ _ j first ∙ ap some (ap (λ q. q.0) same),
      given-ok value _ _ w second ∙ ap some (ap (λ q. q.1) same),
    )
  where
    pair_or : String × String → Result (String × String) → String × String
    pair_or q (ok r) = r
    pair_or q (refused place reason) = q

resolve_report-Chosen :
    (host : Host) (argv : List String) (disk : Disk) (file : String)
    → resolve_report host disk (nth 1 argv) ≡ ok file
    → Chosen host argv disk file
unfolding resolve_report
resolve_report-Chosen host argv disk file h =
    let (path, named, h₁) = ok-bind (require_some (given (nth 1 argv)) _ _) _ file h in
    record {
      path = path;
      asked_path = given-ok (nth 1 argv) _ _ path named;
      located = elim (Bool-cases (exists disk path)) [
        | inl here ↦
            let step : ok path ≡ ok file = sym (rw here refl) ∙ h₁ in inl (ap (text_or path) step)
        | inr away ↦ elim (Bool-cases (exists disk (host.by_run path))) [
          | inl there ↦
              let step : ok (host.by_run path) ≡ ok file = sym (rw (away, there) refl) ∙ h₁ in
              inr (away, ap (text_or path) step)
          | inr nowhere ↦
              let stuck : fail "arguments"
                    (concat ("no report at " ∷ path ∷ " or " ∷ host.by_run path ∷ []))
                  ≡ ok file =
                sym (rw (away, nowhere) refl) ∙ h₁ in
              absurd (cc)
        ]
      ];
    }
  where
    text_or : String → Result String → String
    text_or q (ok t) = t
    text_or q (refused place reason) = q

-- A file that was written by `mark`: it is the one that was asked for, or the report of that run; its
-- report was accepted, the finding that was asked for got the key `filed` with the value, and the
-- new report is accepted with nothing else in it changed. A withheld finding is not filed as a task,
-- nor another one as an advisory.
pub record Recorded (host : Host) (argv : List String) (disk after : Disk) : Type 0 where
  pub file : String
  pub content : String
  pub updated : String
  pub id : String
  pub value : String
  pub report : Report
  pub report' : Report
  pub finding : Finding
  pub command : is_command "mark" argv ≡ true
  pub chosen : Chosen host argv disk file
  pub asked_id : nth 2 argv ≡ some id
  pub asked_value : nth 3 argv ≡ some value
  pub there : lookup file disk.files ≡ some content
  pub written : after ≡ record disk { files = insert file updated disk.files }
  pub accepted : parse_report content ≡ ok report
  pub accepted_again : parse_report updated ≡ ok report'
  pub found : find (has_id id) report.findings ≡ some finding
  pub proper : is_filed_value value ≡ true
  pub front : report'.front ≡ report.front
  pub filed : all_keys report'.findings ≡ file_in id value report.findings
  pub secret : is_withheld finding ≡ true → is_task value ≡ false
  pub open_to_all : is_withheld finding ≡ false → is_advisory value ≡ false

-- A run that ends, and leaves the files or records a finding.
abbrev IsOrderly : Host → List String → Disk → Run → Type 0
IsOrderly host argv disk run =
    (run.ending ≢ never) × ((run.disk ≡ disk) ⊎ Recorded host argv disk run.disk)

throws-ends : throws ≢ never
throws-ends h = cc

exits-ends : (n : ℕ) → exits n ≢ never
exits-ends n h = cc

abbrev value_or : Run → Result Run → Run
value_or run (ok other) = other
value_or run (refused place reason) = run

save-IsOrderly :
    (host : Host) (argv : List String) (disk : Disk) (file content id value updated : String)
    (report report' : Report) (f : Finding) (run : Run)
    → is_command "mark" argv ≡ true
    → Chosen host argv disk file
    → nth 2 argv ≡ some id
    → nth 3 argv ≡ some value
    → lookup file disk.files ≡ some content
    → parse_report content ≡ ok report
    → MayMark report id value f
    → parse_report updated ≡ ok report'
    → report'.front ≡ report.front
    → all_keys report'.findings ≡ file_in id value report.findings
    → save host disk file id value updated ≡ ok run
    → IsOrderly host argv disk run
save-IsOrderly host argv disk file content id value updated report report' f run command chosen
      asked_id asked_value there accepted may again front filed h =
    let after : Disk = record disk { files = insert file updated disk.files } in
    let said = concat (id ∷ " filed as " ∷ value ∷ []) ∷ [] in
    let (r, read, done) = ok-bind (parse_report updated) _ run h in
    elim (Bool-cases (host.can_write file)) [
      | inl can ↦
          let step : ok (printing after said) ≡ ok run = sym (rw can refl) ∙ done in
          let same : printing after said ≡ run = ap (value_or run) step in
          subst (IsOrderly host argv disk) same (
            exits-ends 0,
            inr (record {
              file = file;
              content = content;
              updated = updated;
              id = id;
              value = value;
              report = report;
              report' = report';
              finding = f;
              command = command;
              chosen = chosen;
              asked_id = asked_id;
              asked_value = asked_value;
              there = there;
              written = refl;
              accepted = accepted;
              accepted_again = again;
              found = may.found;
              proper = may.proper;
              front = front;
              filed = filed;
              secret = may.secret;
              open_to_all = may.open_to_all;
            }),
          )
      | inr cannot ↦
          let step : ok (stopped disk throws) ≡ ok run = sym (rw cannot refl) ∙ done in
          let same : stopped disk throws ≡ run = ap (value_or run) step in
          subst (IsOrderly host argv disk) same (throws-ends, inl refl)
    ]

mark-IsOrderly :
    (host : Host) (argv : List String) (disk : Disk) (file content : String) (report : Report)
    (run : Run)
    → is_command "mark" argv ≡ true
    → Chosen host argv disk file
    → lookup file disk.files ≡ some content
    → parse_report content ≡ ok report
    → mark host disk file content report (nth 2 argv) (nth 3 argv) ≡ ok run
    → IsOrderly host argv disk run
unfolding mark
mark-IsOrderly host argv disk file content report run command chosen there accepted h =
    let ((i, v), both, h₁) = ok-bind (both_given (nth 2 argv) (nth 3 argv)) _ run h in
    let (asked_id, asked_value) = both_given-ok (nth 2 argv) (nth 3 argv) i v both in
    let (f, checked, h₂) = ok-bind (to_mark report i v) _ run h₁ in
    let may = to_mark-MayMark report i v f checked in
    let (updated, findings, lines, again, filed) =
      parse_report-marked content i v report f accepted may.proper may.found in
    save-IsOrderly host argv disk file content i v updated report
      (record { front = report.front; findings = findings }) f run command chosen asked_id
      asked_value there accepted may again refl filed
      (sym (ap (on_marked host disk file i v) lines) ∙ h₂)

untouched :
    (host : Host) (argv : List String) (disk : Disk) (run : Run) (lines : List String)
    → ok (printing disk lines) ≡ ok run
    → IsOrderly host argv disk run
untouched host argv disk run lines h =
    subst (IsOrderly host argv disk) (ap (value_or run) h) (exits-ends 0, inl refl)

read_and_run-IsOrderly :
    (host : Host) (disk : Disk) (argv : List String) (file : String) (run : Run)
    → (is_command "check" argv || is_command "list" argv || is_command "mark" argv) ≡ true
    → Chosen host argv disk file
    → read_and_run host disk argv file ≡ ok run
    → IsOrderly host argv disk run
read_and_run-IsOrderly host disk argv file run known chosen h =
    elim (Option-cases (lookup file disk.files)) [
      | inl missing ↦
          let step : ok (stopped disk throws) ≡ ok run =
            sym (ap (on_content host disk argv file) missing) ∙ h in
          subst (IsOrderly host argv disk) (ap (value_or run) step) (throws-ends, inl refl)
      | inr (content, there) ↦
          let step : (parse_report content >>= λ report.
          run_command host disk file content report argv)
              ≡ ok run =
            sym (ap (on_content host disk argv file) there) ∙ h in
          let (report, accepted, h₁) = ok-bind (parse_report content) _ run step in
          elim (Bool-cases (is_command "check" argv)) [
            | inl check ↦
                untouched host argv disk run (check_line file report ∷ [])
                  (sym (rw check refl) ∙ h₁)
            | inr other ↦ elim (Bool-cases (is_command "list" argv)) [
              | inl listing ↦
                  untouched host argv disk run (map list_line report.findings)
                    (sym (rw (other, listing) refl) ∙ h₁)
              | inr marking ↦
                  mark-IsOrderly host argv disk file content report run (ground arith) chosen there
                    accepted (sym (rw (other, marking) refl) ∙ h₁)
            ]
          ]
    ]

caught-IsOrderly :
    (host : Host) (argv : List String) (disk : Disk) (r : Result Run)
    → ((run : Run) → r ≡ ok run → IsOrderly host argv disk run)
    → IsOrderly host argv disk (caught disk r)
caught-IsOrderly host argv disk (ok run) h = h run refl
caught-IsOrderly host argv disk (refused place reason) h = (exits-ends 1, inl refl)

-- A run ends, whatever the command and the files, and either leaves the files or, for `mark`, writes one:
-- the file that was asked for or the report of the run that was asked for. The report in it was accepted,
-- the value is set on the finding that was asked for, nothing else that is read from the report differs,
-- and it is accepted again. A withheld finding is recorded as an advisory, never as a task, and another
-- one never as an advisory.
pub main-IsOrderly :
    (host : Host) (argv : List String) (disk : Disk)
    → ((main host argv disk).ending ≢ never)
      × (((main host argv disk).disk ≡ disk) ⊎ Recorded host argv disk (main host argv disk).disk)
unfolding main
main-IsOrderly host argv disk =
    elim (Bool-cases
      (is_command "check" argv || is_command "list" argv || is_command "mark" argv)) [
        | inl known ↦
            let run = resolve_report host disk (nth 1 argv) >>= read_and_run host disk argv in
            let orderly = caught-IsOrderly host argv disk run (λ end h.
              let (file, found, h₁) = ok-bind (resolve_report host disk (nth 1 argv)) _ end h in
              read_and_run-IsOrderly host disk argv file end known
                (resolve_report-Chosen host argv disk file found) h₁) in
            rw known orderly
        | inr unknown ↦ rw unknown (exits-ends 2, inl refl)
      ]

value-filled : (value : String) → is_filed_value value ≡ true → is_empty_text value ≡ false
unfolding is_filed_value
value-filled String.[] h = absurd (cc)
value-filled (String.◌∷◌ c s) h = refl

-- `mark` of a finding of a report that is accepted writes the report with the mark and exits with 0,
-- where the file can be written and the value suits the finding: a withheld one is no task, another
-- one no advisory.
pub main-mark :
    (host : Host) (disk : Disk) (file content id value : String) (report : Report) (f : Finding)
    → is_empty_text file ≡ false
    → lookup file disk.files ≡ some content
    → host.can_write file ≡ true
    → parse_report content ≡ ok report
    → is_empty_text id ≡ false
    → find (has_id id) report.findings ≡ some f
    → is_filed_value value ≡ true
    → is_withheld f && is_task value ≡ false
    → not (is_withheld f) && is_advisory value ≡ false
    → (updated : String) × (findings : List Finding) × (main host
          ("mark" ∷ file ∷ id ∷ value ∷ [])
          disk
        ≡ printing
            (record disk { files = insert file updated disk.files })
            (concat (id ∷ " filed as " ∷ value ∷ []) ∷ []))
      × (parse_report updated ≡ ok (record { front = report.front; findings = findings }))
      × (all_keys findings ≡ file_in id value report.findings)
unfolding main resolve_report mark to_mark
main-mark host disk file content id value report f named there can accepted filled found proper
      secret open_to_all =
    let (updated, findings, lines, again, filed) =
      parse_report-marked content id value report f accepted proper found in
    (
      updated,
      findings,
      rw named (
          rw there (
            ap (λ o. caught disk (on_content host disk ("mark" ∷ file ∷ id ∷ value ∷ []) file o))
              there
            ∙ rw accepted (
                rw filled (
                  rw (value-filled value proper) (
                    rw proper (
                      rw found (
                        rw (secret, open_to_all)
                          (ap (λ o. caught disk (on_marked host disk file id value o)) lines
                            ∙ rw again (rw can refl))))))))),
      again,
      filed,
    )
