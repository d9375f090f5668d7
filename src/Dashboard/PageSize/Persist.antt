-- ===== src/Dashboard/PageSize/Persist.antt =====
-- Page sizes and the storage.
use release_ops.Common.{
  ℕ, String, eq_refl, ◌≡◌, refl, ◌⊎◌, inl, inr, true, List, some, arith, Bool-cases, Option-cases,
}
use release_ops.Common.Text.{is_space}
use release_ops.Common.Json.{lookup, insert, lookup-insert}
use release_ops.Dashboard.PageSize.{
  default_page_size, page_size_options, max_page_size, Number, whole, other, includes_size,
  is_allowed_page_size, parse_int, Storage, stored_item, size_of, read_stored_page_size,
  resolve_default, mounted_page_size, set_page_size, to_decimal,
}

size_of-allowed :
    (n : Number) (d : ℕ) (options : List ℕ) (max : ℕ)
    → is_allowed_page_size (whole d) options max ≡ true
    → is_allowed_page_size (whole (size_of n d options max)) options max ≡ true
size_of-allowed other d options max h = h
size_of-allowed (whole n) d options max h =
    elim (Bool-cases (is_allowed_page_size (whole n) options max)) [
      | inl fine ↦ rw fine fine
      | inr bad ↦ rw bad h
    ]

read-allowed :
    (storage : Storage) (key : String) (d : ℕ) (options : List ℕ) (max : ℕ)
    → is_allowed_page_size (whole d) options max ≡ true
    → is_allowed_page_size (whole (read_stored_page_size storage key d options max)) options max
      ≡ true
unfolding read_stored_page_size
read-allowed storage key d options max h = elim (Option-cases (stored_item storage key)) [
  | inl e ↦ rw e h
  | inr (stored, e) ↦ rw e (size_of-allowed (parse_int stored) d options max h)
]

default_allowed :
    is_allowed_page_size (whole default_page_size) page_size_options max_page_size ≡ true
unfolding is_allowed_page_size
default_allowed = refl

resolve_default-allowed :
    (d : ℕ)
    → is_allowed_page_size
        (whole (resolve_default d page_size_options max_page_size))
        page_size_options
        max_page_size
      ≡ true
unfolding resolve_default
resolve_default-allowed d =
    elim (Bool-cases (is_allowed_page_size (whole d) page_size_options max_page_size)) [
      | inl fine ↦ rw fine fine
      | inr bad ↦ rw bad default_allowed
    ]

-- Whatever the storage holds, the size that is shown is one of the options.
pub mounted_page_size-allowed :
    (storage : Storage) (key : String) (d : ℕ)
    → is_allowed_page_size
        (whole (mounted_page_size storage key d page_size_options max_page_size))
        page_size_options
        max_page_size
      ≡ true
unfolding mounted_page_size
mounted_page_size-allowed storage key d =
    read-allowed storage key _ page_size_options max_page_size (resolve_default-allowed d)

option-cases : (n : ℕ) → includes_size page_size_options n ≡ true → (n ≡ 10) ⊎ (n ≡ 25) ⊎ (n ≡ 50)
option-cases n h = ground arith

allowed-included :
    (n : ℕ)
    → is_allowed_page_size (whole n) page_size_options max_page_size ≡ true
    → includes_size page_size_options n ≡ true
unfolding is_allowed_page_size
allowed-included n h = ground arith

parse_decimal :
    (n : ℕ) → includes_size page_size_options n ≡ true → parse_int (to_decimal n) ≡ whole n
unfolding parse_int to_decimal is_space
parse_decimal n h = elim (option-cases n h) [
  | inl e ↦ rw e refl
  | inr (inl e) ↦ rw e refl
  | inr (inr e) ↦ rw e refl
]

-- A size that was set is shown again after the page is loaded anew, if the storage can be used.
pub mounted-set_page_size :
    (storage : Storage) (key : String) (d n size : ℕ)
    → storage.in_browser ≡ true
    → storage.readable ≡ true
    → storage.writable ≡ true
    → is_allowed_page_size (whole n) page_size_options max_page_size ≡ true
    → let (shown, after) =
        set_page_size key page_size_options max_page_size (whole n) (size, storage) in
      (shown ≡ n) × (mounted_page_size after key d page_size_options max_page_size ≡ n)
unfolding set_page_size mounted_page_size read_stored_page_size
mounted-set_page_size storage key d n size b r w h =
    let found : lookup key (insert key (to_decimal n) storage.entries) ≡ some (to_decimal n) =
      rw (lookup-insert key key (to_decimal n) storage.entries) (rw (eq_refl key) refl) in
    (
      rw h refl,
      rw h (rw w (rw (b, r) (rw found (rw (parse_decimal n (allowed-included n h)) (rw h refl))))),
    )
