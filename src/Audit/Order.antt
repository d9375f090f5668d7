-- ===== src/Audit/Order.antt =====
-- The order of the keys of a finding, and that marking it keeps the order.
use release_ops.Common.{
  ℕ, zero, suc, code, String, ◌==◌, eq_iff, ◌≡◌, refl, sym, ap, subst, ◌∙◌, Bool, true, false, not,
  ◌&&◌, inl, inr, List, [], ◌∷◌, ◌++◌, any, none, if◌then◌else◌, eqb, Bool-cases, All,
  All-append_split, arith,
}
use release_ops.Common.Text.{is_empty_text, trim, join, IsPart, Lacks, join-injective}
use release_ops.Common.Json.{Entries, lookup, insert, IsKeyed}
use release_ops.Audit.Result.{ok, ok-require, require-then}
use release_ops.Audit.Scalar.{Scalar, parse_key_block}
use release_ops.Audit.Finding.{names, finding_keys, take, drop, check_keys}
use release_ops.Audit.Keys.{parse_line-key, key_name-whole, block-cons}

pub names-IsPart :
    (place : String) (block : List String) (entries : Entries Scalar)
    → parse_key_block place block ≡ ok entries
    → All (IsPart b',') (names entries)
unfolding parse_key_block
names-IsPart place [] entries h =
    let none_there : [] ≡ entries = cc in subst (λ es. All (IsPart b',') (names es)) none_there tt
names-IsPart place (line ∷ lines) entries h = elim (Bool-cases (is_empty_text (trim line))) [
  | inl blank ↦ names-IsPart place lines entries (sym (rw blank refl) ∙ h)
  | inr filled ↦
      let (name, value, rest, read, others, whole) = block-cons place line lines entries filled h in
      let (after, named, nonempty) = parse_line-key place line name value read in
      let (same, plain) = key_name-whole line name after named in
      subst (λ es. All (IsPart b',') (names es)) whole
        ((nonempty, plain), names-IsPart place lines rest others)
]

-- The optional keys, in their order.
abbrev optional : Bool → Bool → List String
optional cwe filed =
    let last = if filed then "filed" ∷ [] else [] in if cwe then "cwe" ∷ last else last

abbrev ordered : Bool → Bool → List String
ordered cwe filed = finding_keys ++ optional cwe filed

take-drop : (n : ℕ) (xs : List String) → take n xs ++ drop n xs ≡ xs
unfolding take drop
take-drop zero xs = refl
take-drop (suc n) [] = refl
take-drop (suc n) (x ∷ xs) = ap (λ ys. x ∷ ys) (take-drop n xs)

abbrev has_no_comma : String → Bool
has_no_comma String.[] = true
has_no_comma (String.◌∷◌ c s) = not (eqb (code c) b',') && has_no_comma s

abbrev are_parts : List String → Bool
are_parts [] = true
are_parts (s ∷ ss) = not (is_empty_text s) && (has_no_comma s && are_parts ss)

has_no_comma-Lacks : (s : String) → has_no_comma s ≡ true → Lacks b',' s
has_no_comma-Lacks String.[] h = tt
has_no_comma-Lacks (String.◌∷◌ c s) h = (ground arith, has_no_comma-Lacks s (ground arith))

are_parts-IsPart : (ss : List String) → are_parts ss ≡ true → All (IsPart b',') ss
are_parts-IsPart [] h = tt
are_parts-IsPart (s ∷ ss) h =
    ((ground arith, has_no_comma-Lacks s (ground arith)), are_parts-IsPart ss (ground arith))

optional-IsPart : (cwe filed : Bool) → All (IsPart b',') (optional cwe filed)
optional-IsPart true true = are_parts-IsPart (optional true true) refl
optional-IsPart true false = are_parts-IsPart (optional true false) refl
optional-IsPart false true = are_parts-IsPart (optional false true) refl
optional-IsPart false false = are_parts-IsPart (optional false false) refl

-- The keys of a finding that is accepted.
pub check_keys-ordered :
    (place : String) (keys : List String)
    → check_keys place keys ≡ ok tt
    → All (IsPart b',') keys
    → (cwe filed : Bool) × (keys ≡ ordered cwe filed)
unfolding check_keys
check_keys-ordered place keys h parts =
    let extra = drop 10 keys in
    let cwe = any (λ e. e == "cwe") extra in
    let filed = any (λ e. e == "filed") extra in
    let (first, after) = require-then _ place _ _ tt h in
    let second = ok-require _ place _ after in
    let (front, back) =
      All-append_split (IsPart b',') (take 10 keys) extra
        (subst (All (IsPart b',')) (sym (take-drop 10 keys)) parts) in
    let begins : take 10 keys ≡ finding_keys =
      join-injective b',' "," _ _ refl front (are_parts-IsPart finding_keys refl)
        ((eq_iff _ _).0 first) in
    let ends : extra ≡ optional cwe filed =
      join-injective b',' "," _ _ refl back (optional-IsPart cwe filed) ((eq_iff _ _).0 second) in
    (
      cwe,
      filed,
      sym (take-drop 10 keys) ∙ ap (λ ks. ks ++ extra) begins ∙ ap (λ ks. finding_keys ++ ks) ends,
    )

pub check_keys_of_ordered :
    (place : String) (cwe filed : Bool) → check_keys place (ordered cwe filed) ≡ ok tt
unfolding check_keys take drop join
check_keys_of_ordered place true true = refl
check_keys_of_ordered place true false = refl
check_keys_of_ordered place false true = refl
check_keys_of_ordered place false false = refl

abbrev insert_name : String → List String → List String
insert_name name [] = name ∷ []
insert_name name (n ∷ ns) =
    let later = insert_name name ns in if n == name then name ∷ ns else n ∷ later

names-insert :
    (name : String) (value : Scalar) (entries : Entries Scalar)
    → names (insert name value entries) ≡ insert_name name (names entries)
unfolding insert
names-insert name value [] = refl
names-insert name value ((key, old) ∷ rest) = elim (Bool-cases (key == name)) [
  | inl e ↦ rw e refl
  | inr n ↦ rw n (ap (λ ns. key ∷ ns) (names-insert name value rest))
]

-- A marked finding has its keys in the order too.
pub check_keys-insert :
    (place : String) (value : Scalar) (entries : Entries Scalar) (cwe filed : Bool)
    → names entries ≡ ordered cwe filed
    → check_keys place (names (insert "filed" value entries)) ≡ ok tt
check_keys-insert place value entries cwe filed h =
    ap (check_keys place)
      (names-insert "filed" value entries ∙ ap (insert_name "filed") h ∙ marked cwe filed)
    ∙ check_keys_of_ordered place cwe true
  where
    marked : (cwe filed : Bool) → insert_name "filed" (ordered cwe filed) ≡ ordered cwe true
    marked true true = refl
    marked true false = refl
    marked false true = refl
    marked false false = refl

abbrev are_apart : List String → Bool
are_apart [] = true
are_apart (n ∷ ns) = not (any (λ m. m == n) ns) && are_apart ns

lookup-absent :
    (name : String) (entries : Entries Scalar)
    → any (λ m. m == name) (names entries) ≡ false
    → lookup name entries ≡ none
unfolding lookup
lookup-absent name [] h = refl
lookup-absent name ((key, value) ∷ rest) h = ground (arith, lookup-absent name rest)

are_apart-IsKeyed : (entries : Entries Scalar) → are_apart (names entries) ≡ true → IsKeyed entries
are_apart-IsKeyed [] h = tt
are_apart-IsKeyed ((key, value) ∷ rest) h =
    (lookup-absent key rest (ground arith), are_apart-IsKeyed rest (ground arith))

pub ordered-IsKeyed :
    (entries : Entries Scalar) (cwe filed : Bool)
    → names entries ≡ ordered cwe filed
    → IsKeyed entries
ordered-IsKeyed entries cwe filed h = are_apart-IsKeyed entries (ap are_apart h ∙ apart cwe filed)
  where
    apart : (cwe filed : Bool) → are_apart (ordered cwe filed) ≡ true
    apart true true = refl
    apart true false = refl
    apart false true = refl
    apart false false = refl
