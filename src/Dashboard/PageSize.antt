-- ===== src/Dashboard/PageSize.antt =====
-- apps/web/lib/hooks/use-persisted-page-size.ts and apps/web/lib/pagination/constants.ts: a page size
-- that is kept in the browser's storage.
pub mod Persist
use Prim.Native.String
use release_ops.Common.{
  ℕ, zero, suc, ◌+◌, ◌-◌, ◌*◌, ◌/◌, ◌%◌, Char, code, String, ◌==◌, Bool, true, false, ◌&&◌, ◌||◌,
  List, [], ◌∷◌, any, Option, none, some, if◌then◌else◌, eqb, ltb, leb,
}
use release_ops.Common.Text.{trim_start}
use release_ops.Common.Json.{lookup, insert}

abbrev pub default_page_size : ℕ
default_page_size = 10

abbrev pub page_size_options : List ℕ
page_size_options = 10 ∷ 25 ∷ 50 ∷ []

abbrev pub max_page_size : ℕ
max_page_size = 100

-- A number of JavaScript: a natural number, or another one (negative, fractional, NaN).
pub data Number : Type 0 where
  whole : ℕ → Number
  other : Number

abbrev pub includes_size : List ℕ → ℕ → Bool
includes_size options n = any (λ option. eqb option n) options

unfoldable pub is_allowed_page_size : Number → List ℕ → ℕ → Bool
is_allowed_page_size other options max = false
is_allowed_page_size (whole n) options max = ltb 0 n && (leb n max && includes_size options n)

abbrev pub is_digit : Char → Bool
is_digit c = leb 0x30 (code c) && leb (code c) 0x39

-- The number that the leading digits spell, if there are any, after a number that was read.
read_digits : Option ℕ → String → Option ℕ
read_digits read String.[] = read
read_digits none (String.◌∷◌ c s) =
    let rest = read_digits (some (code c - 0x30)) s in if is_digit c then rest else none
read_digits (some n) (String.◌∷◌ c s) =
    let rest = read_digits (some (n * 10 + (code c - 0x30))) s in
    if is_digit c then rest else some n

abbrev pub to_number : Option ℕ → Number
to_number none = other
to_number (some n) = whole n

-- `Number.parseInt(s, 10)`, without and with the blanks; what has a minus sign is not allowed.
unfoldable pub parse_signed : String → Number
unfolding read_digits
parse_signed String.[] = other
parse_signed (String.◌∷◌ c s) =
    if eqb (code c) b'-'
    then other
    else to_number (read_digits none (if eqb (code c) b'+' then s else String.◌∷◌ c s))

unfoldable pub parse_int : String → Number
unfolding parse_signed trim_start
parse_int s = parse_signed (trim_start s)

abbrev pub digit_text : ℕ → String
digit_text n =
    if eqb n 0
    then "0"
    else if eqb n 1
    then "1"
    else if eqb n 2
    then "2"
    else if eqb n 3
    then "3"
    else if eqb n 4
    then "4"
    else if eqb n 5
    then "5"
    else if eqb n 6
    then "6"
    else if eqb n 7
    then "7"
    else if eqb n 8
    then "8"
    else "9"

-- The decimal digits; `fuel` bounds their number.
decimal : ℕ → ℕ → String
decimal zero n = digit_text (n % 10)
decimal (suc fuel) n =
    let rest = decimal fuel (n / 10) in
    if ltb n 10 then digit_text n else String.◌++◌ rest (digit_text (n % 10))

-- `String(n)`; a natural number has no more digits than its size.
unfoldable pub to_decimal : ℕ → String
unfolding decimal
to_decimal n = decimal n n

-- The storage of the browser; on the server there is none, and reading or writing may throw.
pub record Storage : Type 0 where
  pub in_browser : Bool
  pub readable : Bool
  pub writable : Bool
  pub entries : List (String × String)

-- What was stored, where the storage can be read.
abbrev pub stored_item : Storage → String → Option String
stored_item storage key =
    if storage.in_browser && storage.readable then lookup key storage.entries else none

abbrev pub size_of : Number → ℕ → List ℕ → ℕ → ℕ
size_of other default_size options max = default_size
size_of (whole n) default_size options max =
    if is_allowed_page_size (whole n) options max then n else default_size

abbrev pub size_of_item : Option String → ℕ → List ℕ → ℕ → ℕ
size_of_item none default_size options max = default_size
size_of_item (some stored) default_size options max =
    size_of (parse_int stored) default_size options max

unfoldable pub read_stored_page_size : Storage → String → ℕ → List ℕ → ℕ → ℕ
unfolding parse_int is_allowed_page_size
read_stored_page_size storage key default_size options max =
    size_of_item (stored_item storage key) default_size options max

-- `resolvedDefault`
unfoldable pub resolve_default : ℕ → List ℕ → ℕ → ℕ
resolve_default default_size options max =
    if is_allowed_page_size (whole default_size) options max
    then default_size
    else default_page_size

-- The size after the effect of the hook.
unfoldable pub mounted_page_size : Storage → String → ℕ → List ℕ → ℕ → ℕ
unfolding read_stored_page_size resolve_default
mounted_page_size storage key default_size options max =
    read_stored_page_size storage key (resolve_default default_size options max) options max

abbrev pub set_item : String → String → Storage → Storage
set_item key value storage =
    if storage.writable
    then record storage { entries = insert key value storage.entries }
    else storage

-- `setPageSize`: the new size and the storage.
unfoldable pub set_page_size : String → List ℕ → ℕ → Number → ℕ × Storage → ℕ × Storage
unfolding is_allowed_page_size to_decimal
set_page_size key options max other (size, storage) = (size, storage)
set_page_size key options max (whole n) (size, storage) =
    if is_allowed_page_size (whole n) options max
    then (n, set_item key (to_decimal n) storage)
    else (size, storage)
