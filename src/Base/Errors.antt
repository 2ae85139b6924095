-- ===== src/Base/Errors.antt =====
-- Results with an error, as `Result<T, E>` and `?` use them.
use mathlib.Core.Path.{◌≡◌, refl}
use mathlib.Core.Logic.{◌⊎◌, inl, inr}
use mathlib.Core.Bool.{Bool, true, false}
use mathlib.Core.Option.{Option, none, some}

pub data Result {ℓ κ} (E : Type ℓ) (A : Type κ) : Type (ℓ ⊔ κ) where
  ok : A → Result E A
  err : E → Result E A

module _ {ℓ κ} {E : Type ℓ} {A : Type κ} where
  abbrev pub ok_or : Option A → E → Result E A
  ok_or none e = err e
  ok_or (some a) e = ok a

  abbrev pub to_option : Result E A → Option A
  to_option (ok a) = some a
  to_option (err e) = none

  abbrev pub is_ok : Result E A → Bool
  is_ok (ok a) = true
  is_ok (err e) = false

module _ {ℓ κ μ} {E : Type ℓ} {A : Type κ} {B : Type μ} where
  abbrev pub and_then : Result E A → (A → Result E B) → Result E B
  and_then (ok a) f = f a
  and_then (err e) f = err e

  abbrev pub map_ok : (A → B) → Result E A → Result E B
  map_ok f (ok a) = ok (f a)
  map_ok f (err e) = err e

  abbrev pub map_err : (E → B) → Result E A → Result B A
  map_err f (ok a) = ok a
  map_err f (err e) = err (f e)

  -- Inversion of a successful bind, for proofs where the parts stay shut.
  pub and_then-eq-ok :
      (m : Result E A) (f : A → Result E B) {b : B}
      → and_then m f ≡ ok b
      → (a : A) × (m ≡ ok a) × (f a ≡ ok b)
  and_then-eq-ok (ok a) f h = (a, refl, h)
  and_then-eq-ok (err e) f h = cc

module _ {ℓ κ μ} {E : Type ℓ} {A : Type κ} {F : Type μ} where
  pub map_err-eq-ok : (f : E → F) (m : Result E A) {a : A} → map_err f m ≡ ok a → m ≡ ok a
  map_err-eq-ok f (ok x) h = cc h
  map_err-eq-ok f (err e) h = cc

-- `?` in a `do` block.
infixl 5 ◌>>=◌
abbrev pub ◌>>=◌ {ℓ κ μ} :
    {E : Type ℓ} {A : Type κ} {B : Type μ} → Result E A → (A → Result E B) → Result E B
m >>= f = and_then m f

infixl 5 ◌>>◌
abbrev pub ◌>>◌ {ℓ κ μ} :
    {E : Type ℓ} {A : Type κ} {B : Type μ} → Result E A → Result E B → Result E B
m >> n = and_then m (λ _. n)

pub Result-cases {ℓ κ} :
    {E : Type ℓ} {A : Type κ} (r : Result E A) → ((a : A) × (r ≡ ok a)) ⊎ ((e : E) × (r ≡ err e))
Result-cases (ok a) = inl (a, refl)
Result-cases (err e) = inr (e, refl)
