-- ===== src/Common/Text/Trim.antt =====
-- `trim`, `startsWith`, `includes` and the removal of a suffix.
use Prim.Native.Char.{Char, code}
use Prim.Native.String.{String, [], ◌∷◌}
use mathlib.Core.Path.{◌≡◌, refl}
use mathlib.Core.Bool.{Bool, true, false, ◌||◌, ◌&&◌}
use mathlib.Core.Logic.{inl, inr}
use release_ops.Common.Tests.{eqb, leb, if◌then◌else◌, Bool-cases}

-- White space and line terminators of ECMAScript.
unfoldable pub is_space : Char → Bool
is_space c =
    let n = code c in
    (leb 9 n && leb n 13)
    || eqb n 0x20
    || eqb n 0xA0
    || eqb n 0x1680
    || (leb 0x2000 n && leb n 0x200A)
    || eqb n 0x2028
    || eqb n 0x2029
    || eqb n 0x202F
    || eqb n 0x205F
    || eqb n 0xFEFF

abbrev pub is_empty_text : String → Bool
is_empty_text [] = true
is_empty_text (c ∷ s) = false

unfoldable pub trim_start : String → String
trim_start [] = []
trim_start (c ∷ s) = if is_space c then trim_start s else c ∷ s

-- A space goes exactly when nothing is left behind it.
abbrev pub keep_char : Char → String → String
keep_char c rest = if is_space c && is_empty_text rest then [] else c ∷ rest

unfoldable pub trim_end : String → String
trim_end [] = []
trim_end (c ∷ s) = keep_char c (trim_end s)

unfoldable pub trim : String → String
unfolding trim_start trim_end is_space
trim s = trim_end (trim_start s)

unfoldable pub starts_with : String → String → Bool
starts_with s [] = true
starts_with [] (p ∷ ps) = false
starts_with (c ∷ s) (p ∷ ps) = eqb (code c) (code p) && starts_with s ps

unfoldable pub includes : String → String → Bool
includes [] p = starts_with [] p
includes (c ∷ s) p = starts_with (c ∷ s) p || includes s p

-- `s.replace(/\/$/, "")`: one slash at the end goes.
unfoldable pub strip_slash : String → String
strip_slash [] = []
strip_slash (c ∷ s) =
    let rest = c ∷ strip_slash s in if eqb (code c) b'/' && is_empty_text s then [] else rest

-- A text begins with no space.
abbrev pub StartsClean : String → Type 0
StartsClean [] = Unit
StartsClean (c ∷ s) = is_space c ≡ false

pub trim_start_clean : (s : String) → StartsClean (trim_start s)
unfolding trim_start
trim_start_clean [] = tt
trim_start_clean (c ∷ s) = elim (Bool-cases (is_space c)) [
  | inl sp ↦ rw sp (trim_start_clean s)
  | inr ns ↦ rw ns ns
]

-- A text that `trim` leaves alone.
abbrev pub IsTrimmed : String → Type 0
IsTrimmed s = trim s ≡ s

keep_char-clean : (c : Char) (s : String) → is_space c ≡ false → keep_char c s ≡ c ∷ s
keep_char-clean c s h = rw h

trim_start_of_clean : (s : String) → StartsClean s → trim_start s ≡ s
unfolding trim_start
trim_start_of_clean [] h = refl
trim_start_of_clean (c ∷ s) h = rw h

trim_end-keep_char :
    (c : Char) (s : String) → trim_end s ≡ s → trim_end (keep_char c s) ≡ keep_char c s
unfolding trim_end
trim_end-keep_char c s h = elim (Bool-cases (is_space c && is_empty_text s)) [
  | inl gone ↦ rw gone
  | inr stays ↦ rw (stays) (rw h (rw stays))
]

trim_end_idem : (s : String) → trim_end (trim_end s) ≡ trim_end s
unfolding trim_end
trim_end_idem [] = refl
trim_end_idem (c ∷ s) = trim_end-keep_char c (trim_end s) (trim_end_idem s)

trim_end-StartsClean : (s : String) → StartsClean s → StartsClean (trim_end s)
unfolding trim_end
trim_end-StartsClean [] h = tt
trim_end-StartsClean (c ∷ s) h = rw h h

-- Trimming twice is trimming once.
pub trim-IsTrimmed : (s : String) → IsTrimmed (trim s)
unfolding trim
trim-IsTrimmed s =
    rw
      (trim_start_of_clean (trim_end (trim_start s))
        (trim_end-StartsClean (trim_start s) (trim_start_clean s)))
      (trim_end_idem (trim_start s))

-- A leading space does not matter.
pub trim-cons_space : (c : Char) (s : String) → is_space c ≡ true → trim (c ∷ s) ≡ trim s
unfolding trim trim_start
trim-cons_space c s h = rw h

module _ (P : Char → Type 0) where
  -- Every character has the property.
  abbrev pub Chars : String → Type 0
  Chars [] = Unit
  Chars (c ∷ s) = P c × Chars s

module _ (P : Char → Type 0) where
  trim_start-Chars : (s : String) → Chars P s → Chars P (trim_start s)
  unfolding trim_start
  trim_start-Chars [] h = tt
  trim_start-Chars (c ∷ s) h = elim (Bool-cases (is_space c)) [
    | inl sp ↦ rw sp (trim_start-Chars s h.1)
    | inr ns ↦ rw ns h
  ]

  trim_end-Chars : (s : String) → Chars P s → Chars P (trim_end s)
  unfolding trim_end
  trim_end-Chars [] h = tt
  trim_end-Chars (c ∷ s) h = elim (Bool-cases (is_space c && is_empty_text (trim_end s))) [
    | inl gone ↦ rw gone tt
    | inr stays ↦ rw stays (h.0, trim_end-Chars s h.1)
  ]

  -- Trimming brings in no new character.
  pub trim-Chars : (s : String) → Chars P s → Chars P (trim s)
  unfolding trim
  trim-Chars s h = trim_end-Chars (trim_start s) (trim_start-Chars s h)
