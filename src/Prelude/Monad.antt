-- ===== src/Prelude/Monad.antt =====
-- Chains of steps that can fail.
use mathlib.Core.Path.{◌≡◌, refl, subst}
use mathlib.Core.Bool.{Bool, true, false}
use mathlib.Core.Option.{Option, none, some, some-injective}

infixl 5 ◌>>=◌ ◌>>◌
abbrev pub ◌>>=◌ {ℓ κ} : {A : Type ℓ} {B : Type κ} → Option A → (A → Option B) → Option B
none >>= f = none
some a >>= f = f a

abbrev pub ◌>>◌ {ℓ κ} : {A : Type ℓ} {B : Type κ} → Option A → Option B → Option B
m >> k = m >>= λ _. k

-- Go on only if the condition holds.
abbrev pub require : Bool → Option (Unit {0})
require true = some tt
require false = none

-- Inversion of a successful bind.
pub bind-eq-some {ℓ κ} :
    {A : Type ℓ} {B : Type κ} (m : Option A) (f : A → Option B) {b : B}
    → (m >>= f) ≡ some b
    → (a : A) × (m ≡ some a) × (f a ≡ some b)
bind-eq-some none f h = cc
bind-eq-some (some a) f h = (a, refl, h)

pub require-eq-some {ℓ} :
    {B : Type ℓ} (c : Bool) (k : Option B) {b : B}
    → (require c >> k) ≡ some b
    → (c ≡ true) × (k ≡ some b)
require-eq-some true k h = (refl, h)
require-eq-some false k h = cc

-- What holds of the result of a chain, if it has one.
pub record Holds {ℓ κ} {B : Type ℓ} (P : B → Type κ) (o : Option B) : Type (ℓ ⊔ κ) where
  pub holds : (b : B) → o ≡ some b → P b

pub Holds-some {ℓ κ} : {B : Type ℓ} (P : B → Type κ) (b : B) → P b → Holds P (some b)
Holds-some P b p = record { holds = λ c e. subst P (some-injective _ _ e) p }

pub Holds-bind {ℓ κ μ} :
    {A : Type ℓ} {B : Type κ} (P : B → Type μ) (m : Option A) (f : A → Option B)
    → ((a : A) → m ≡ some a → Holds P (f a))
    → Holds P (m >>= f)
Holds-bind P none f h = record { holds = λ b e. cc }
Holds-bind P (some a) f h = h a refl

pub Holds-require {ℓ κ} :
    {B : Type ℓ} (P : B → Type κ) (c : Bool) (k : Option B)
    → (c ≡ true → Holds P k)
    → Holds P (require c >> k)
Holds-require P true k h = h refl
Holds-require P false k h = record { holds = λ b e. cc }
