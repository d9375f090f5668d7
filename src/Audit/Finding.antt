-- ===== src/Audit/Finding.antt =====
-- parseFinding of scripts/audit-report.mjs.
use Prim.Native.String
use release_ops.Common.{
  ℕ, String, ◌==◌, Bool, true, false, not, ◌||◌, List, [], ◌∷◌, map, keep, any, Option, none, some,
  if◌then◌else◌, is_some,
}
use release_ops.Common.Text.{is_empty_text, trim, starts_with, join}
use release_ops.Common.Json.{Entries, lookup, spread}
use release_ops.Audit.Result.{Result, ◌>>=◌, ◌>>◌, pure, require, require_some}
use release_ops.Audit.Scalar.{Scalar, text, flag, texts, shown, parse_key_block}

abbrev pub finding_keys : List String
finding_keys =
    "id" ∷ "title" ∷ "severity" ∷ "type" ∷ "label" ∷ "withhold" ∷ "verdict" ∷ "files" ∷ "related"
    ∷ "invariant" ∷ []

abbrev pub optional_keys : List String
optional_keys = "cwe" ∷ "filed" ∷ []

abbrev pub finding_sections : List String
finding_sections =
    "Summary" ∷ "Entry point and attacker" ∷ "Verified trace" ∷ "Impact and preconditions"
    ∷ "Fix direction" ∷ "Test to write first" ∷ "Verifier notes" ∷ []

abbrev pub severities : List String
severities = "critical" ∷ "high" ∷ "medium" ∷ "low" ∷ "info" ∷ []

abbrev pub types : List String
types = "bug" ∷ "chore" ∷ "docs" ∷ []

abbrev pub labels : List String
labels = "backend" ∷ "web" ∷ "db" ∷ "config" ∷ "ci" ∷ "docs" ∷ "none" ∷ []

abbrev pub verdicts : List String
verdicts = "CONFIRMED" ∷ "CONFIRMED-WITH-PRECONDITIONS" ∷ []

-- A finding: its keys, and the line after its heading, counted from 0.
pub record Finding : Type 0 where
  pub keys : Entries Scalar
  pub line : ℕ

abbrev pub names : {A : Type 0} → Entries A → List String
names entries = map (λ (name, value). name) entries

-- `Object.fromEntries(entries)`
unfoldable pub from_entries : Entries Scalar → Entries Scalar
unfolding spread
from_entries entries = spread [] entries

-- `list.includes(value)`, for a list of texts.
abbrev pub is_one_of : List String → Option Scalar → Bool
is_one_of list (some (text s)) = any (λ t. t == s) list
is_one_of list _ = false

abbrev pub is_flag : Option Scalar → Bool
is_flag (some (flag b)) = true
is_flag _ = false

abbrev pub is_true : Option Scalar → Bool
is_true (some (flag b)) = b
is_true _ = false

abbrev pub is_list : Option Scalar → Bool
is_list (some (texts ss)) = true
is_list _ = false

-- A value that may be missing, in a template literal.
abbrev pub shown_or : Option Scalar → String
shown_or none = "undefined"
shown_or (some value) = shown value

-- What stands before a separator, or everything.
unfoldable pub before : String → String → String
before sep String.[] = String.[]
before sep (String.◌∷◌ c s) =
    let rest = String.◌∷◌ c (before sep s) in
    if starts_with (String.◌∷◌ c s) sep then String.[] else rest

-- `s.slice(n)`
unfoldable pub slice : ℕ → String → String
slice Prim.Native.Nat.zero s = s
slice (Prim.Native.Nat.suc n) String.[] = String.[]
slice (Prim.Native.Nat.suc n) (String.◌∷◌ c s) = slice n s

abbrev pub add_front :
    String → Option (List String × List String) → Option (List String × List String)
add_front line none = none
add_front line (some (front, back)) = some (line ∷ front, back)

-- The lines up to the first that is the given one, and those after it.
unfoldable pub break_at : String → List String → Option (List String × List String)
break_at mark [] = none
break_at mark (line ∷ lines) =
    let rest = break_at mark lines in if line == mark then some ([], lines) else add_front line rest

-- The lines after the mark, if that is the first that is not blank.
unfoldable pub after_blanks : String → List String → Option (List String)
after_blanks mark [] = none
after_blanks mark (line ∷ lines) =
    let rest = after_blanks mark lines in
    if is_empty_text (trim line) then rest else if line == mark then some lines else none

-- The first elements of a list, and the others.
unfoldable pub take : ℕ → List String → List String
take Prim.Native.Nat.zero xs = []
take (Prim.Native.Nat.suc n) [] = []
take (Prim.Native.Nat.suc n) (x ∷ xs) = x ∷ take n xs

unfoldable pub drop : ℕ → List String → List String
drop Prim.Native.Nat.zero xs = xs
drop (Prim.Native.Nat.suc n) [] = []
drop (Prim.Native.Nat.suc n) (x ∷ xs) = drop n xs

abbrev pub list_of : List String → String
list_of ss = join ", " ss

abbrev pub concat : List String → String
concat [] = ""
concat (s ∷ ss) = String.◌++◌ s (concat ss)

-- The keys of a finding, in their order.
unfoldable pub check_keys : String → List String → Result (Unit {0})
unfolding take drop
check_keys place keys =
    require (join "," (take 10 keys) == join "," finding_keys) place
      (concat ("yaml keys must start with " ∷ list_of finding_keys ∷ " in order" ∷ []))
    >> (let extra = drop 10 keys in
        let allowed = keep (λ k. any (λ e. e == k) extra) optional_keys in
        require (join "," extra == join "," allowed) place
          (concat ("only " ∷ list_of optional_keys ∷ " may follow, in that order" ∷ [])))

-- What the keys of a finding hold.
unfoldable pub check_values : String → String → Entries Scalar → Result (Unit {0})
unfolding lookup
check_values place heading f =
    require (starts_with heading (String.◌++◌ (shown_or (lookup "id" f)) " — ")) place
      "heading id does not match the yaml id"
    >> (require (is_one_of severities (lookup "severity" f)) place
          (String.◌++◌ "bad severity " (shown_or (lookup "severity" f)))
        >> (require (is_one_of types (lookup "type" f)) place
              (String.◌++◌ "bad type " (shown_or (lookup "type" f)))
            >> (require (is_one_of labels (lookup "label" f)) place
                  (String.◌++◌ "bad label " (shown_or (lookup "label" f)))
                >> (require (is_flag (lookup "withhold" f)) place "withhold must be true or false"
                    >> (require
                          (not (is_one_of ("critical" ∷ "high" ∷ []) (lookup "severity" f))
                            || is_true (lookup "withhold" f))
                          place "critical and high findings must be withhold: true"
                        >> (require (is_one_of verdicts (lookup "verdict" f)) place
                              (String.◌++◌ "bad verdict " (shown_or (lookup "verdict" f)))
                            >> (require (is_list (lookup "files" f)) place
                                  "files must be a flow list"
                                >> (require (is_list (lookup "related" f)) place
                                      "related must be a flow list"
                                    >> require
                                        (not (is_some (lookup "cwe" f)) || is_list (lookup "cwe" f))
                                        place "cwe must be a flow list"))))))))

abbrev pub headings : List String → List String
headings lines = map (slice 4) (keep (λ l. starts_with l "### ") lines)

abbrev pub check_sections : String → List String → Result (Unit {0})
check_sections place rest =
    require (join "|" (headings rest) == join "|" finding_sections) place
      (String.◌++◌ "### sections must be exactly: " (list_of finding_sections))

-- The block of a finding and what follows it.
abbrev pub read_block : String → List String → Result (List String × List String)
read_block place body =
    require_some (after_blanks "```yaml" body) place
      "heading must be followed by exactly one ```yaml block"
    >>= λ lines. require_some (break_at "```" lines) place "unclosed yaml block"

-- The checks of a finding, on its block and on what follows.
unfoldable pub check_block : String → String → List String × List String → Result (Entries Scalar)
unfolding parse_key_block check_keys from_entries check_values slice
check_block place heading (block, rest) = do
  entries ← parse_key_block place block
  check_keys place (names entries)
  check_values place heading (from_entries entries)
  check_sections place rest
  pure (from_entries entries)

unfoldable pub parse_finding : String → List String → ℕ → Result Finding
unfolding before after_blanks break_at check_block
parse_finding heading body line_no = do
  found ← read_block (before " — " heading) body
  keys ← check_block (before " — " heading) heading found
  pure (record { keys = keys; line = line_no })
