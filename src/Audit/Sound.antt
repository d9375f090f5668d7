-- ===== src/Audit/Sound.antt =====
-- What every finding of a report that is accepted holds.
use release_ops.Common.{
  String, ◌==◌, ◌≡◌, refl, ap, Bool, true, false, not, ◌||◌, List, [], ◌∷◌, any, Option, none, some,
  All,
}
use release_ops.Common.Text.{split}
use release_ops.Common.Json.{lookup}
use release_ops.Audit.Result.{ok, require-then}
use release_ops.Audit.Scalar.{Scalar, text, flag, texts}
use release_ops.Audit.Finding.{
  Finding, severities, types, labels, verdicts, is_one_of, is_flag, is_true, is_list, check_values,
}
use release_ops.Audit.Report.{Report, parse_report}
use release_ops.Audit.Filed.{parse_finding-IsAccepted}
use release_ops.Audit.Sections.{All-read_sections}
use release_ops.Audit.Parsed.{parse_lines-Parsed}

-- One of some texts.
abbrev IsOneOf : List String → Option Scalar → Type 0
IsOneOf list value = (s : String) × (value ≡ some (text s)) × (any (λ t. t == s) list ≡ true)

-- The keys that a finding has, and what they hold. A critical or high finding is withheld.
pub record IsSound (f : Finding) : Type 0 where
  severity : IsOneOf severities (lookup "severity" f.keys)
  kind : IsOneOf types (lookup "type" f.keys)
  label : IsOneOf labels (lookup "label" f.keys)
  verdict : IsOneOf verdicts (lookup "verdict" f.keys)
  withhold : (b : Bool) × (lookup "withhold" f.keys ≡ some (flag b))
  withheld :
      is_one_of ("critical" ∷ "high" ∷ []) (lookup "severity" f.keys) ≡ true
      → lookup "withhold" f.keys ≡ some (flag true)
  files : (ss : List String) × (lookup "files" f.keys ≡ some (texts ss))
  related : (ss : List String) × (lookup "related" f.keys ≡ some (texts ss))

is_one_of-IsOneOf :
    (list : List String) (value : Option Scalar) → is_one_of list value ≡ true → IsOneOf list value
is_one_of-IsOneOf list (some (text s)) h = (s, refl, h)
is_one_of-IsOneOf list (some (flag b)) h = absurd (cc)
is_one_of-IsOneOf list (some (texts ss)) h = absurd (cc)
is_one_of-IsOneOf list none h = absurd (cc)

flag_of_test : (value : Option Scalar) → is_flag value ≡ true → (b : Bool) × (value ≡ some (flag b))
flag_of_test (some (text s)) h = absurd (cc)
flag_of_test (some (flag b)) h = (b, refl)
flag_of_test (some (texts ss)) h = absurd (cc)
flag_of_test none h = absurd (cc)

true_of_test : (value : Option Scalar) → is_true value ≡ true → value ≡ some (flag true)
true_of_test (some (text s)) h = absurd (cc)
true_of_test (some (flag b)) h = ap (λ c. some (flag c)) h
true_of_test (some (texts ss)) h = absurd (cc)
true_of_test none h = absurd (cc)

list_of_test :
    (value : Option Scalar) → is_list value ≡ true → (ss : List String) × (value ≡ some (texts ss))
list_of_test (some (text s)) h = absurd (cc)
list_of_test (some (flag b)) h = absurd (cc)
list_of_test (some (texts ss)) h = (ss, refl)
list_of_test none h = absurd (cc)

implied : (a b : Bool) → not a || b ≡ true → a ≡ true → b ≡ true
implied true b h k = h
implied false b h k = absurd (cc)

check_values-IsSound :
    (place heading : String) (f : Finding) → check_values place heading f.keys ≡ ok tt → IsSound f
unfolding check_values
check_values-IsSound place heading f h =
    let (_, h₁) = require-then _ place _ _ tt h in
    let (severity, h₂) = require-then _ place _ _ tt h₁ in
    let (kind, h₃) = require-then _ place _ _ tt h₂ in
    let (label, h₄) = require-then _ place _ _ tt h₃ in
    let (withhold, h₅) = require-then _ place _ _ tt h₄ in
    let (withheld, h₆) = require-then _ place _ _ tt h₅ in
    let (verdict, h₇) = require-then _ place _ _ tt h₆ in
    let (files, h₈) = require-then _ place _ _ tt h₇ in
    let (related, _) = require-then _ place _ _ tt h₈ in
    record {
      severity = is_one_of-IsOneOf severities _ severity;
      kind = is_one_of-IsOneOf types _ kind;
      label = is_one_of-IsOneOf labels _ label;
      verdict = is_one_of-IsOneOf verdicts _ verdict;
      withhold = flag_of_test _ withhold;
      withheld = λ grave. true_of_test _ (implied _ _ withheld grave);
      files = list_of_test _ files;
      related = list_of_test _ related;
    }

-- Every finding of a report that is accepted has a severity, a type, a label and a verdict of the
-- format, a flag to withhold it and the two lists, and if it is critical or high it is withheld.
pub parse_report-IsSound :
    (content : String) (report : Report)
    → parse_report content ≡ ok report
    → All IsSound report.findings
unfolding parse_report
parse_report-IsSound content report h =
    let P = parse_lines-Parsed (split b'\n' content) report h in
    All-read_sections IsSound
      (λ heading body n f parsed.
        let (block, rest, A) = parse_finding-IsAccepted heading body n f parsed in
        check_values-IsSound _ heading f A.values)
      _ [] P.rest report.findings P.seen P.read
