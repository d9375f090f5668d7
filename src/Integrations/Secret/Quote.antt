-- ===== src/Integrations/Secret/Quote.antt =====
-- The quoting of a text by `JSON.stringify`, and a reader of quoted texts, which RFC 8259 describes.
use Prim.Native.String
use Prim.Native.String.{[], ◌∷◌}
use release_ops.Common.{ℕ, ◌/◌, ◌%◌, Char, code, String, if◌then◌else◌, eqb, ltb}

-- The hexadecimal digit of a number below 16.
abbrev pub hex_digit : ℕ → String
hex_digit n =
    if eqb n 0
    then "0"
    else if eqb n 1
    then "1"
    else if eqb n 2
    then "2"
    else if eqb n 3
    then "3"
    else if eqb n 4
    then "4"
    else if eqb n 5
    then "5"
    else if eqb n 6
    then "6"
    else if eqb n 7
    then "7"
    else if eqb n 8
    then "8"
    else if eqb n 9
    then "9"
    else if eqb n 10
    then "a"
    else if eqb n 11
    then "b"
    else if eqb n 12
    then "c"
    else if eqb n 13
    then "d"
    else if eqb n 14
    then "e"
    else "f"

-- What stands for one character between the quotes.
unfoldable pub quote_char : Char → String
quote_char c =
    let n = code c in
    if eqb n 0x22
    then "\\\""
    else if eqb n 0x5C
    then "\\\\"
    else if eqb n 8
    then "\\b"
    else if eqb n 9
    then "\\t"
    else if eqb n 10
    then "\\n"
    else if eqb n 12
    then "\\f"
    else if eqb n 13
    then "\\r"
    else if ltb n 0x20
    then String.◌++◌ "\\u00" (String.◌++◌ (hex_digit (n / 16)) (hex_digit (n % 16)))
    else c ∷ []

unfoldable pub quote_chars : String → String
unfolding quote_char
quote_chars [] = []
quote_chars (c ∷ s) = String.◌++◌ (quote_char c) (quote_chars s)

unfoldable pub quote : String → String
unfolding quote_chars
quote s = String.◌++◌ "\"" (String.◌++◌ (quote_chars s) "\"")
