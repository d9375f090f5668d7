-- ===== src/Audit/Scalar.antt =====
-- stripComment, parseScalar and parseKeyBlock of scripts/audit-report.mjs.
use Prim.Native.String.{[], ◌∷◌, ◌++◌}
use release_ops.Common.{
  ℕ, Char, code, String, ◌==◌, Bool, true, false, not, ◌&&◌, ◌||◌, List, map, Option, none, some,
  if◌then◌else◌, eqb, leb,
}
use release_ops.Common.Text.{is_space, is_empty_text, trim, starts_with, split, join}
use release_ops.Common.Json.{Entries}
use release_ops.Audit.Result.{Result, ok, ◌>>=◌, pure, require_some}

-- What a key of a report holds.
pub data Scalar : Type 0 where
  text : String → Scalar
  flag : Bool → Scalar
  texts : List String → Scalar

-- A value in a template literal.
abbrev pub shown : Scalar → String
shown (text s) = s
shown (flag true) = "true"
shown (flag false) = "false"
shown (texts ss) = join "," ss

-- What `.` does not match.
abbrev pub is_line_end : Char → Bool
is_line_end c = eqb (code c) 0xA || eqb (code c) 0xD || eqb (code c) 0x2028 || eqb (code c) 0x2029

abbrev pub is_one_line : String → Bool
is_one_line [] = true
is_one_line (c ∷ s) = not (is_line_end c) && is_one_line s

-- What stands before `/\s#/`.
unfoldable pub until_comment : String → String
until_comment [] = []
until_comment (c ∷ s) =
    let rest = c ∷ until_comment s in if is_space c && starts_with s "#" then [] else rest

unfoldable pub strip_comment : String → String
unfolding until_comment
strip_comment v = if starts_with v "\"" then v else trim (until_comment v)

abbrev pub cons_first : Char → Option (String × String) → Option (String × String)
cons_first c none = none
cons_first c (some (s, rest)) = some (c ∷ s, rest)

-- `((?:[^"\\]|\\.)*)"`, with the text that follows. The mark says that a backslash stands before.
unfoldable pub read_quoted : Bool → String → Option (String × String)
read_quoted escaped [] = none
read_quoted true (c ∷ s) =
    let rest = read_quoted false s in if is_line_end c then none else cons_first c rest
read_quoted false (c ∷ s) =
    let rest = read_quoted (eqb (code c) b'\\') s in
    if eqb (code c) b'"' then some ([], s) else cons_first c rest

-- `.replace(/\\(["\\])/g, '$1')`, with the same mark.
unfoldable pub unescape : Bool → String → String
unescape false [] = []
unescape true [] = "\\"
unescape false (c ∷ s) =
    let after = unescape true s in
    let plain = unescape false s in if eqb (code c) b'\\' then after else c ∷ plain
unescape true (c ∷ s) =
    let plain = unescape false s in
    if eqb (code c) b'"' || eqb (code c) b'\\' then c ∷ plain else "\\" ++ (c ∷ plain)

-- `\s*(#.*)?$`
unfoldable pub is_comment_end : String → Bool
is_comment_end [] = true
is_comment_end (c ∷ s) =
    let rest = is_comment_end s in if is_space c then rest else eqb (code c) b'#' && is_one_line s

abbrev pub closed_quote : Option (String × String) → Option String
closed_quote none = none
closed_quote (some (s, rest)) = if is_comment_end rest then some (unescape false s) else none

-- The last character and what stands before it.
unfoldable pub unsnoc : String → Option (String × Char)
unsnoc [] = none
unsnoc (c ∷ s) = elim (unsnoc s) [
  | none ↦ some ([], c)
  | some (front, last) ↦ some (c ∷ front, last)
]

-- A text that ends in a character, without it.
abbrev pub without_last : ℕ → Option (String × Char) → Option String
without_last end none = none
without_last end (some (front, last)) = if eqb (code last) end then some front else none

abbrev pub one_line_or : String → Option String → String
one_line_or s none = s
one_line_or s (some inner) = if is_one_line inner then inner else s

-- `.replace(/^"(.*)"$/, '$1')`
abbrev pub unquote : String → String
unquote [] = []
unquote (c ∷ s) =
    if eqb (code c) b'"' then one_line_or (c ∷ s) (without_last b'"' (unsnoc s)) else c ∷ s

-- The elements of a flow list, between its brackets.
abbrev pub flow_items : String → List String
flow_items inner =
    if is_empty_text inner then List.[] else map (λ s. unquote (trim s)) (split b',' inner)

abbrev pub plain_scalar : String → Scalar
plain_scalar v = if v == "true" then flag true else if v == "false" then flag false else text v

abbrev pub quoted_value : Option String → String → String → Result Scalar
quoted_value inner place v =
    require_some inner place ("unterminated or malformed quoted string: " ++ v) >>= λ s.
    pure (text s)

abbrev pub flow_value : Option String → String → String → Result Scalar
flow_value inner place v = require_some inner place ("malformed flow list: " ++ v) >>= λ s.
    pure (texts (flow_items (trim s)))

-- `parseScalar` after the comment is gone.
unfoldable pub parse_value : String → String → Result Scalar
unfolding read_quoted unescape is_comment_end unsnoc
parse_value [] place = ok (text "")
parse_value (c ∷ s) place =
    if eqb (code c) b'"'
    then quoted_value (closed_quote (read_quoted false s)) place (c ∷ s)
    else if eqb (code c) b'['
    then flow_value (without_last b']' (unsnoc s)) place (c ∷ s)
    else ok (plain_scalar (c ∷ s))

unfoldable pub parse_scalar : String → String → Result Scalar
unfolding strip_comment
parse_scalar raw place = parse_value (strip_comment (trim raw)) place

abbrev pub is_key_char : Char → Bool
is_key_char c = (leb b'a' (code c) && leb (code c) b'z') || eqb (code c) b'_'

-- `[a-z_]+:` and what follows, for a name of which some is read already.
unfoldable pub key_name : String → Option (String × String)
key_name [] = none
key_name (c ∷ s) =
    let rest = cons_first c (key_name s) in
    if eqb (code c) b':' then some ([], s) else if is_key_char c then rest else none

-- `\s?(.*)$`
abbrev pub key_value : String → Option String
key_value [] = some []
key_value (c ∷ s) =
    let value = if is_space c then s else c ∷ s in if is_one_line value then some value else none

abbrev pub key_and_value : Option (String × String) → Option (String × String)
key_and_value none = none
key_and_value (some (name, rest)) =
    if is_empty_text name
    then none
    else elim (key_value rest) [ none ↦ none | some value ↦ some (name, value) ]

-- `/^([a-z_]+):\s?(.*)$/`
unfoldable pub match_line : String → Option (String × String)
unfolding key_name
match_line line = key_and_value (key_name line)

abbrev pub parse_line : String → String → Result (String × Scalar)
parse_line place line =
    require_some (match_line line) place ("not a \"key: value\" line: " ++ line) >>= λ (name, raw).
    parse_scalar raw (place ++ (" key " ++ name)) >>= λ value. pure (name, value)

unfoldable pub parse_key_block : String → List String → Result (Entries Scalar)
parse_key_block place List.[] = ok List.[]
parse_key_block place (List.◌∷◌ line lines) =
    let rest = parse_key_block place lines in
    if is_empty_text (trim line)
    then rest
    else parse_line place line >>= λ entry. rest >>= λ entries. pure (List.◌∷◌ entry entries)
