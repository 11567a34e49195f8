-- ===== src/Grafana/Outcome.antt =====
-- pkg/grafana/generate_grafana.go: how the generator ends: with a value, with `logErrorAndExit` for an
-- error, or with a panic.
use ocm_service_common.Common.{refl, ◌≡◌, String, Option, none, some}

pub data Outcome {ℓ} (A : Type ℓ) : Type ℓ where
  returns : A → Outcome A
  exits : String → Outcome A
  panics : Outcome A

infixl 5 ◌>>=◌
abbrev pub ◌>>=◌ {ℓ κ} : {A : Type ℓ} {B : Type κ} → Outcome A → (A → Outcome B) → Outcome B
returns a >>= f = f a
exits e >>= f = exits e
panics >>= f = panics

-- The dereference of a pointer.
abbrev pub dereference {ℓ} : {A : Type ℓ} → Option A → Outcome A
dereference none = panics
dereference (some a) = returns a

-- What holds of the value, if there is one.
abbrev pub Holds {ℓ κ} : {A : Type ℓ} → (A → Type κ) → Outcome A → Type κ
Holds P (returns a) = P a
Holds P (exits e) = Unit
Holds P panics = Unit

module _ {ℓ κ μ} {A : Type ℓ} {B : Type κ} (Q : B → Type μ) where
  pub Holds-bind {ν} :
      {P : A → Type ν} (m : Outcome A) (f : A → Outcome B)
      → Holds P m
      → ((a : A) → P a → Holds Q (f a))
      → Holds Q (m >>= f)
  Holds-bind (returns a) f h k = k a h
  Holds-bind (exits e) f h k = tt
  Holds-bind panics f h k = tt

  -- A step of which nothing is used.
  pub Holds-then :
      (m : Outcome A) (f : A → Outcome B) → ((a : A) → Holds Q (f a)) → Holds Q (m >>= f)
  Holds-then (returns a) f k = k a
  Holds-then (exits e) f k = tt
  Holds-then panics f k = tt

pub dereference-Holds {ℓ} : {A : Type ℓ} (o : Option A) → Holds (λ a. o ≡ some a) (dereference o)
dereference-Holds none = tt
dereference-Holds (some a) = refl
