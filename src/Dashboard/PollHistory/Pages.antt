-- ===== src/Dashboard/PollHistory/Pages.antt =====
-- What the pages show.
use release_ops.Common.{
  ℕ, zero, suc, ◌+◌, ◌-◌, ◌*◌, ◌<◌, ◌≡◌, refl, sym, ◌∙◌, ap, inl, inr, false, List, [], ◌∷◌, ◌++◌,
  length, if◌then◌else◌, eqb, eqb→eq, arith, Bool-cases,
}
use release_ops.Dashboard.PageSize.{
  Number, whole, other, Storage, set_page_size, is_allowed_page_size, page_size_options,
  max_page_size,
}
use release_ops.Dashboard.PollHistory.{
  State, Event, next_page, previous_page, handle_page_size_change, open_run, close_run, handle,
  has_next_page, changed_size, storage_key,
}

zero_add : (n : ℕ) → 0 + n ≡ n
zero_add n = omega arith

suc_add : (m n : ℕ) → suc m + n ≡ suc (m + n)
suc_add m n = omega arith

fewer :
    (shown rest all limit fuel : ℕ)
    → shown + rest ≡ all
    → shown ≡ limit
    → 0 < limit
    → all < suc fuel
    → rest < fuel
fewer shown rest all limit fuel e f h k = omega arith

none_below : (n : ℕ) → n < 0 → ⊥
none_below n h = omega arith

module _ {ℓ} {A : Type ℓ} where
  -- The runs of a page, as the server answers: at most `limit`, from `offset` on.
  abbrev pub take : ℕ → List A → List A
  take zero xs = []
  take (suc n) [] = []
  take (suc n) (x ∷ xs) = x ∷ take n xs

  abbrev pub drop : ℕ → List A → List A
  drop zero xs = xs
  drop (suc n) [] = []
  drop (suc n) (x ∷ xs) = drop n xs

  abbrev pub page : ℕ → ℕ → List A → List A
  page limit offset runs = take limit (drop offset runs)

  take-drop : (n : ℕ) (xs : List A) → take n xs ++ drop n xs ≡ xs
  take-drop zero xs = refl
  take-drop (suc n) [] = refl
  take-drop (suc n) (x ∷ xs) = ap (λ ys. x ∷ ys) (take-drop n xs)

  drop-nil : (n : ℕ) → drop n [] ≡ []
  drop-nil zero = refl
  drop-nil (suc n) = refl

  drop-add : (m n : ℕ) (xs : List A) → drop (m + n) xs ≡ drop n (drop m xs)
  drop-add zero n xs = ap (λ k. drop k xs) (zero_add n)
  drop-add (suc m) n [] = drop-nil (suc m + n) ∙ sym (drop-nil n)
  drop-add (suc m) n (x ∷ xs) = ap (λ k. drop k (x ∷ xs)) (suc_add m n) ∙ drop-add m n xs

  take-short : (n : ℕ) (xs : List A) → (eqb (length (take n xs)) n ≡ false) → take n xs ≡ xs
  take-short zero xs h = cc
  take-short (suc n) [] h = refl
  take-short (suc n) (x ∷ xs) h = ap (λ ys. x ∷ ys) (take-short n xs (ground arith))

  -- The runs that are shown by following the button for the next page while it is enabled.
  unfoldable pub follow : ℕ → State → List A → List A
  unfolding handle
  follow zero s runs = []
  follow (suc fuel) s runs =
      let shown = page s.page_size s.offset runs in
      let rest = follow fuel (handle next_page s) runs in
      if has_next_page s shown then shown ++ rest else shown

  length-append : (xs ys : List A) → length (xs ++ ys) ≡ length xs + length ys
  length-append [] ys = omega arith
  length-append (x ∷ xs) ys = ground (arith, length-append xs ys)

  length-take-drop : (n : ℕ) (xs : List A) → length (take n xs) + length (drop n xs) ≡ length xs
  length-take-drop n xs = sym (length-append (take n xs) (drop n xs)) ∙ ap length (take-drop n xs)

  -- Following the next page from the first one on shows every run, once and in order; as many steps
  -- are enough as there are runs, and one more.
  pub follow-all :
      (fuel : ℕ) (s : State) (runs : List A)
      → 0 < s.page_size
      → length (drop s.offset runs) < fuel
      → follow fuel s runs ≡ drop s.offset runs
  unfolding follow handle
  follow-all zero s runs h k = absurd (none_below _ k)
  follow-all (suc fuel) s runs h k =
      let left = drop s.offset runs in
      let next = handle next_page s in
      elim (Bool-cases (has_next_page s (page s.page_size s.offset runs))) [
        | inr last ↦ rw last (take-short s.page_size left last)
        | inl full ↦
            let count = length-take-drop s.page_size left in
            let bound : length (drop s.page_size left) < fuel =
              fewer _ _ _ s.page_size fuel count (eqb→eq _ _ full) h k in
            let later = drop-add s.offset s.page_size runs in
            rw full (
              ap (λ ys. page s.page_size s.offset runs ++ ys)
                (follow-all fuel next runs h (rw later bound) ∙ later)
              ∙ take-drop s.page_size left)
      ]

-- The place of a page: a whole number of pages from the start, in pages that hold something.
pub record IsPlaced (s : State) : Type 0 where
  pub count : ℕ
  pub start : s.offset ≡ count * s.page_size
  pub positive : 0 < s.page_size

page_after : (c p : ℕ) → c * p + p ≡ suc c * p
page_after c p = omega arith

less_one : (c : ℕ) → suc c - 1 ≡ c
less_one c = omega arith

page_before : (c p : ℕ) → c * p - p ≡ (c - 1) * p
page_before zero p = omega arith
page_before (suc c) p = rw (less_one c) (omega (arith, page_after c p))

set_page_size-positive :
    (n : Number) (size : ℕ) (storage : Storage)
    → 0 < size
    → 0 < (set_page_size storage_key page_size_options max_page_size n (size, storage)).0
unfolding set_page_size is_allowed_page_size
set_page_size-positive other size storage h = h
set_page_size-positive (whole n) size storage h = ground arith

changed_size-IsPlaced :
    (n : Number) (s : State)
    → IsPlaced s
    → IsPlaced (
        changed_size
          (set_page_size storage_key page_size_options max_page_size n (s.page_size, s.storage))
          s)
changed_size-IsPlaced n s h = record {
  count = 0;
  start = omega arith;
  positive = set_page_size-positive n s.page_size s.storage h.positive;
}

-- Every event keeps the page in its place, whatever size was asked for.
pub handle-IsPlaced : (e : Event) (s : State) → IsPlaced s → IsPlaced (handle e s)
unfolding handle
handle-IsPlaced next_page s h = record {
  count = suc h.count;
  start = ap (λ o. o + s.page_size) h.start ∙ page_after h.count s.page_size;
  positive = h.positive;
}
handle-IsPlaced previous_page s h = record {
  count = h.count - 1;
  start = ap (λ o. o - s.page_size) h.start ∙ page_before h.count s.page_size;
  positive = h.positive;
}
handle-IsPlaced (handle_page_size_change size) s h = changed_size-IsPlaced size s h
handle-IsPlaced (open_run id) s h = record {
  count = h.count;
  start = h.start;
  positive = h.positive;
}
handle-IsPlaced close_run s h = record { count = h.count; start = h.start; positive = h.positive }
