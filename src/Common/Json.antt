-- ===== src/Common/Json.antt =====
-- Values of JavaScript that come from JSON or from a form, and objects (`Record<string, unknown>`)
-- as lists of their own properties in insertion order. A missing property is `none` (`undefined`).
-- A number is given by the text that `String(n)` prints for it.
use Prim.Native.String.{String}
use mathlib.Core.Path.{◌≡◌, refl}
use mathlib.Core.Bool.{Bool, true, false}
use mathlib.Core.Option.{Option, none, some}
use mathlib.Core.List.{List, [], ◌∷◌}
use native.Mathlib.Omega.{arith}
use text.Mathlib.Text.{◌==◌}
use text.Mathlib.TextEquality.{eq_iff}
use release_ops.Common.Tests.{if◌then◌else◌}
use release_ops.Common.Text.{join}

mutual
  -- The properties of an object.
  pub data Fields : Type 0 where
    no_field : Fields
    field : (name : String) (value : Value) (others : Fields) → Fields

  -- The elements of an array.
  pub data Items : Type 0 where
    no_item : Items
    item : (first : Value) (others : Items) → Items

  pub data Value : Type 0 where
    str num : String → Value
    obj : Fields → Value
    arr : Items → Value
    bool : Bool → Value
    null : Value

abbrev pub items : Items → List Value
items no_item = []
items (item v vs) = v ∷ items vs

abbrev pub fields : Fields → List (String × Value)
fields no_field = []
fields (field k v fs) = (k, v) ∷ fields fs

-- `String(v)`, and the texts of an array's elements in `join`, where `null` is empty.
unfoldable mutual
  pub to_text : Value → String
  to_text null = "null"
  to_text (bool true) = "true"
  to_text (bool false) = "false"
  to_text (num d) = d
  to_text (str s) = s
  to_text (arr vs) = join "," (item_texts vs)
  to_text (obj fs) = "[object Object]"

  pub item_texts : Items → List String
  item_texts no_item = []
  item_texts (item null vs) = "" ∷ item_texts vs
  item_texts (item v vs) = to_text v ∷ item_texts vs

-- `typeof v === "string" ? v : d`, for a property that may be missing.
abbrev pub string_or : String → Option Value → String
string_or d (some (str s)) = s
string_or d _ = d

abbrev pub strings_of : Items → List String
strings_of no_item = []
strings_of (item (str s) vs) = s ∷ strings_of vs
strings_of (item v vs) = strings_of vs

-- `Array.isArray(v) ? v.filter((item) => typeof item === "string") : []`
abbrev pub string_list : Option Value → List String
string_list (some (arr vs)) = strings_of vs
string_list _ = []

abbrev pub of_strings : List String → Items
of_strings [] = no_item
of_strings (s ∷ ss) = item (str s) (of_strings ss)

pub strings_of-of_strings : (ss : List String) → strings_of (of_strings ss) ≡ ss
strings_of-of_strings [] = refl
strings_of-of_strings (s ∷ ss) = rw (strings_of-of_strings ss)

-- An object, or a map with text keys: its entries in insertion order.
abbrev pub Entries {ℓ} : Type ℓ → Type ℓ
Entries V = List (String × V)

module _ {ℓ} {V : Type ℓ} where
  -- `o[name]`, `m.get(name)`
  unfoldable pub lookup : String → Entries V → Option V
  lookup name [] = none
  lookup name ((key, value) ∷ rest) =
      let later = lookup name rest in if key == name then some value else later

  -- `o[name] = value`, `m.set(name, value)`: a known key keeps its place.
  unfoldable pub insert : String → V → Entries V → Entries V
  insert name value [] = (name, value) ∷ []
  insert name value ((key, old) ∷ rest) =
      let later = insert name value rest in
      if key == name then (name, value) ∷ rest else (key, old) ∷ later

  -- `{ ...base, ...over }`
  unfoldable pub spread : Entries V → Entries V → Entries V
  spread base [] = base
  spread base ((k, v) ∷ over) = spread (insert k v base) over

  -- What is read after a write: the new value under its own name.
  pub lookup-insert :
      (name read : String) (value : V) (entries : Entries V)
      → lookup read (insert name value entries)
        ≡ (if name == read then some value else lookup read entries)
  unfolding lookup insert
  lookup-insert name read value [] = refl
  lookup-insert name read value ((key, old) ∷ rest) = ground (
    arith,
    lookup-insert name read value rest,
    eq_iff key read,
    eq_iff key name,
    eq_iff name read,
  )

  -- No key is listed twice, as in every object and map.
  abbrev pub IsKeyed : Entries V → Type ℓ
  IsKeyed [] = Unit
  IsKeyed ((k, v) ∷ m) = (lookup k m ≡ none) × IsKeyed m

  abbrev pub first_some : Option V → Option V → Option V
  first_some (some a) o = some a
  first_some none o = o

  first_some-step :
      (k j : String) (v : V) (m : Entries V) (o : Option V)
      → lookup k m ≡ none
      → first_some (lookup j m) (if k == j then some v else o)
        ≡ first_some (if k == j then some v else lookup j m) o
  first_some-step k j v m o h = ground (arith, eq_iff k j)

  -- Reading a spread: the later object wins.
  pub lookup-spread :
      (j : String) (base over : Entries V)
      → IsKeyed over
      → lookup j (spread base over) ≡ first_some (lookup j over) (lookup j base)
  unfolding lookup spread
  lookup-spread j base [] h = refl
  lookup-spread j base ((k, v) ∷ over) (h, hs) =
      rw (lookup-spread j (insert k v base) over hs, lookup-insert k j v base)
        (first_some-step k j v over (lookup j base) h)

  pub insert-IsKeyed : (k : String) (v : V) (m : Entries V) → IsKeyed m → IsKeyed (insert k v m)
  unfolding lookup insert
  insert-IsKeyed k v [] h = (refl, tt)
  insert-IsKeyed k v ((j, w) ∷ m) (h, hs) =
      ground (arith, insert-IsKeyed k v m hs, lookup-insert k j v m, eq_iff j k, eq_iff k j)

  pub spread-IsKeyed : (base over : Entries V) → IsKeyed base → IsKeyed (spread base over)
  unfolding spread
  spread-IsKeyed base [] h = h
  spread-IsKeyed base ((k, v) ∷ over) h =
      spread-IsKeyed (insert k v base) over (insert-IsKeyed k v base h)

abbrev pub Object : Type 0
Object = List (String × Value)
