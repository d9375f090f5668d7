-- ===== src/Audit/Result.antt =====
-- `fail` of scripts/audit-report.mjs: a ReportError with the place and the reason.
use release_ops.Common.{String, Bool, true, false, ◌≡◌, refl, Option, none, some}

pub data Result {ℓ} (A : Type ℓ) : Type ℓ where
  ok : A → Result A
  refused : (place reason : String) → Result A

infixl 5 ◌>>=◌ ◌>>◌
abbrev pub ◌>>=◌ {ℓ ℓ'} : {A : Type ℓ} {B : Type ℓ'} → Result A → (A → Result B) → Result B
ok a >>= f = f a
refused place reason >>= f = refused place reason

abbrev pub ◌>>◌ {ℓ ℓ'} : {A : Type ℓ} {B : Type ℓ'} → Result A → Result B → Result B
r >> s = r >>= λ _. s

abbrev pub pure {ℓ} : {A : Type ℓ} → A → Result A
pure = ok

abbrev pub fail {ℓ} : {A : Type ℓ} → String → String → Result A
fail place reason = refused place reason

-- `if (!test) fail(place, reason)`
abbrev pub require : Bool → String → String → Result (Unit {0})
require true place reason = ok tt
require false place reason = refused place reason

-- `if (found === undefined) fail(place, reason)`
abbrev pub require_some {ℓ} : {A : Type ℓ} → Option A → String → String → Result A
require_some (some a) place reason = ok a
require_some none place reason = refused place reason

module _ {ℓ ℓ'} {A : Type ℓ} {B : Type ℓ'} where
  -- A result that follows another comes from what that one returned.
  pub ok-bind :
      (r : Result A) (f : A → Result B) (b : B)
      → (r >>= f) ≡ ok b
      → (a : A) × (r ≡ ok a) × (f a ≡ ok b)
  ok-bind (ok a) f b h = (a, refl, h)
  ok-bind (refused place reason) f b h = absurd (cc)

pub ok-require :
    (test : Bool) (place reason : String) → require test place reason ≡ ok tt → test ≡ true
ok-require true place reason h = refl
ok-require false place reason h = absurd (cc)

-- A test that comes first.
pub require-then {ℓ} :
    {A : Type ℓ} (test : Bool) (place reason : String) (r : Result A) (a : A)
    → (require test place reason >> r) ≡ ok a
    → (test ≡ true) × (r ≡ ok a)
require-then true place reason r a h = (refl, h)
require-then false place reason r a h = absurd (cc)

-- What is there.
pub require_some-ok {ℓ} :
    {A : Type ℓ} (o : Option A) (place reason : String) (a : A)
    → require_some o place reason ≡ ok a
    → o ≡ some a
require_some-ok none place reason a h = absurd (cc)
require_some-ok (some b) place reason a h = cc
