-- ===== src/Roadmap/Intake/Empty.antt =====
-- Lists of messages of scripts/audit-roadmap-intake.mjs: when there is none.
use release_ops.Common.{
  String, ◌==◌, eq_iff, ◌≡◌, refl, sym, ap, subst, ◌∙◌, Bool, true, false, not, inl, inr, List, [],
  ◌∷◌, ◌++◌, map, keep, is_empty, if◌then◌else◌, Bool-cases, All, All-keep,
}
use release_ops.Roadmap.{Task, unique}
use release_ops.Roadmap.Intake.{counted}

module _ {A : Type 0} where
  pub append-empty : (xs ys : List A) → xs ++ ys ≡ [] → (xs ≡ []) × (ys ≡ [])
  append-empty [] ys h = (refl, h)
  append-empty (x ∷ xs) ys h = absurd (cc)

  pub empty-append : {xs ys : List A} → xs ≡ [] → ys ≡ [] → xs ++ ys ≡ []
  empty-append {ys = ys} h k = ap (λ zs. zs ++ ys) h ∙ k

  pub All-map : {P Q : A → Type 0} → ((x : A) → P x → Q x) → (xs : List A) → All P xs → All Q xs
  All-map f [] h = tt
  All-map f (x ∷ xs) (h, hs) = (f x h, All-map f xs hs)

  -- No complaint means that nothing is bad.
  pub complaints-empty :
      {B : Type 0} (bad : A → Bool) (message : A → B) (xs : List A)
      → map message (keep bad xs) ≡ []
      → All (λ x. bad x ≡ false) xs
  complaints-empty bad message [] h = tt
  complaints-empty bad message (x ∷ xs) h = elim (Bool-cases (bad x)) [
    | inl e ↦
        let step : message x ∷ map message (keep bad xs) ≡ [] = sym (rw e refl) ∙ h in absurd (cc)
    | inr n ↦ (n, complaints-empty bad message xs (sym (rw n refl) ∙ h))
  ]

  pub empty-complaints :
      {B : Type 0} (bad : A → Bool) (message : A → B) (xs : List A)
      → All (λ x. bad x ≡ false) xs
      → map message (keep bad xs) ≡ []
  empty-complaints bad message [] h = refl
  empty-complaints bad message (x ∷ xs) (h, hs) = rw h (empty-complaints bad message xs hs)

  keep-empty :
      (bad : A → Bool) (xs : List A) → is_empty (keep bad xs) ≡ true → All (λ x. bad x ≡ false) xs
  keep-empty bad [] h = tt
  keep-empty bad (x ∷ xs) h = elim (Bool-cases (bad x)) [
    | inl e ↦ let step : false ≡ true = sym (rw e refl) ∙ h in absurd (cc)
    | inr n ↦ (n, keep-empty bad xs (sym (rw n refl) ∙ h))
  ]

  empty-keep :
      (bad : A → Bool) (xs : List A) → All (λ x. bad x ≡ false) xs → is_empty (keep bad xs) ≡ true
  empty-keep bad [] h = refl
  empty-keep bad (x ∷ xs) (h, hs) = rw h (empty-keep bad xs hs)

-- One message or none.
pub if-empty : (b : Bool) (message : String) → (if b then [] else message ∷ []) ≡ [] → b ≡ true
if-empty true message h = refl
if-empty false message h = absurd (cc)

pub empty-if : (b : Bool) (message : String) → b ≡ true → (if b then [] else message ∷ []) ≡ []
empty-if b message h = rw h refl

pub counted-empty :
    (bad : Task → Bool) (message : String) (tasks : List Task)
    → counted bad message tasks ≡ []
    → All (λ t. bad t ≡ false) tasks
counted-empty bad message tasks h = keep-empty bad tasks (if-empty _ _ h)

pub empty-counted :
    (bad : Task → Bool) (message : String) (tasks : List Task)
    → All (λ t. bad t ≡ false) tasks
    → counted bad message tasks ≡ []
empty-counted bad message tasks h = empty-if _ _ (empty-keep bad tasks h)

pub not-false : (b : Bool) → not b ≡ false → b ≡ true
not-false true h = refl
not-false false h = absurd (cc)

-- What holds of a text and of all texts that differ from it holds of all.
module _ (P : String → Type 0) where
  All-others :
      (t : String) (ts : List String) → P t → All P (keep (λ s. not (s == t)) ts) → All P ts
  All-others t [] p h = tt
  All-others t (s ∷ ts) p h = elim (Bool-cases (s == t)) [
    | inl e ↦
        let gone : keep (λ r. not (r == t)) (s ∷ ts) ≡ keep (λ r. not (r == t)) ts = rw e refl in
        (subst P (sym ((eq_iff s t).0 e)) p, All-others t ts p (subst (All P) gone h))
    | inr n ↦
        let stays : keep (λ r. not (r == t)) (s ∷ ts) ≡ s ∷ keep (λ r. not (r == t)) ts =
          rw n refl in
        let kept : All P (s ∷ keep (λ r. not (r == t)) ts) = subst (All P) stays h in
        (kept.0, All-others t ts p kept.1)
  ]

  pub All-unique : (ts : List String) → All P (unique ts) → All P ts
  unfolding unique
  All-unique [] h = tt
  All-unique (t ∷ ts) (p, h) = (p, All-unique ts (All-others t (unique ts) p h))

  pub unique-All : (ts : List String) → All P ts → All P (unique ts)
  unfolding unique
  unique-All [] h = tt
  unique-All (t ∷ ts) (p, h) = (p, All-keep P (λ s. not (s == t)) (unique ts) (unique-All ts h))
