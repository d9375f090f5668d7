-- ===== src/Release/Semver/Reading.antt =====
-- What `parseSemver` reads.
use Prim.Native.String
use Prim.Native.String.{[], ◌∷◌}
use text.Mathlib.TextLemmas.{nil-append, cons-append}
use release_ops.Common.{
  ℕ, ◌+◌, ◌-◌, ◌*◌, code, String, ◌≡◌, refl, ap, true, false, Option, none, some,
}
use release_ops.Common.Text.{trim, is_empty_text, Chars}
use release_ops.Release.Semver.{
  is_digit, is_label, digits, read_number, labels, read_label, parse_normalized, parse_semver,
  strip_v,
}

-- The number that digits spell in base ten, after a number that was read.
abbrev pub value : ℕ → String → ℕ
value n [] = n
value n (c ∷ s) = value (n * 10 + (code c - 0x30)) s

-- No digit comes first.
abbrev pub Stops : String → Type 0
Stops [] = Unit
Stops (c ∷ s) = is_digit c ≡ false

abbrev pub Digits : String → Type 0
Digits s = Chars (λ c. is_digit c ≡ true) s

digits_of_Stops : (n : ℕ) (s : String) → Stops s → digits n s ≡ (n, s)
unfolding digits
digits_of_Stops n [] h = refl
digits_of_Stops n (c ∷ s) h = rw h refl

digits-append :
    (d rest : String) (n : ℕ)
    → Digits d
    → Stops rest
    → digits n (String.◌++◌ d rest) ≡ (value n d, rest)
unfolding digits
digits-append [] rest n h stop = rw (nil-append rest) (digits_of_Stops n rest stop)
digits-append (c ∷ d) rest n (h, hs) stop =
    rw (cons-append c d rest) (rw h (digits-append d rest (n * 10 + (code c - 0x30)) hs stop))

-- A number of a version: at least one digit.
abbrev pub IsNumber : String → Type 0
IsNumber s = (is_empty_text s ≡ false) × Digits s

read_number-append :
    (d rest : String)
    → IsNumber d
    → Stops rest
    → read_number (String.◌++◌ d rest) ≡ some (value 0 d, rest)
unfolding read_number
read_number-append [] rest (h, k) stop = absurd (cc)
read_number-append (c ∷ d) rest (h, k) stop =
    rw (cons-append c d rest)
      (rw k.0 (ap some (digits-append d rest (0 + (code c - 0x30)) k.1 stop)))

-- A label: at least one character, all of them allowed.
abbrev pub IsLabel : String → Type 0
IsLabel s = (is_empty_text s ≡ false) × Chars (λ c. is_label c ≡ true) s

labels_of_label : (s : String) → Chars (λ c. is_label c ≡ true) s → labels s ≡ (s, [])
unfolding labels
labels_of_label [] h = refl
labels_of_label (c ∷ s) (h, hs) = rw (labels_of_label s hs) (rw h refl)

-- What follows the numbers: nothing, or a label behind a hyphen.
abbrev pub tail_of : Option String → String
tail_of none = []
tail_of (some label) = "-" ∷ label

abbrev pub IsTail : Option String → Type 0
IsTail none = Unit
IsTail (some label) = IsLabel label

abbrev pub label_of : Option String → String
label_of none = []
label_of (some label) = label

tail-Stops : (t : Option String) → Stops (tail_of t)
tail-Stops none = tt
tail-Stops (some label) = refl

read_tail : (t : Option String) → IsTail t → read_label 0x2D (tail_of t) ≡ some (label_of t, [])
unfolding read_label
read_tail none h = refl
read_tail (some label) (h, k) = rw (labels_of_label label k) (rw h refl)

-- The text of a version.
abbrev pub version_text : String → String → String → Option String → String
version_text a b c t = String.◌++◌ a ("." ∷ String.◌++◌ b ("." ∷ String.◌++◌ c (tail_of t)))

-- A version of three numbers, and perhaps a label behind a hyphen, is read as what it spells; a
-- leading v and blanks around it do not matter.
pub parse_semver-version :
    (version a b c : String) (t : Option String)
    → strip_v (trim version) ≡ version_text a b c t
    → IsNumber a
    → IsNumber b
    → IsNumber c
    → IsTail t
    → parse_semver version
      ≡ some (record {
        major = value 0 a;
        minor = value 0 b;
        patch = value 0 c;
        prerelease = label_of t;
        build = "";
      })
unfolding parse_semver parse_normalized
parse_semver-version version a b c t h na nb nc nt = rw h (
    rw (read_number-append a _ na refl) (
      rw (read_number-append b _ nb refl)
        (rw (read_number-append c (tail_of t) nc (tail-Stops t)) (rw (read_tail t nt) refl))))
