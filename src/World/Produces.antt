-- ===== src/World/Produces.antt =====
-- What holds of the result of an operation, in whatever state.
use st0x_oracle_server.World.{◌>>=◌, World, M, pure, lift, continue, Result}
use st0x_oracle_server.World.Ensures.{IfOk, Any, IfOk-Any}
use st0x_oracle_server.Refusal.{AppError}
use st0x_oracle_server.Base.{ok, err, ◌≡◌, refl, subst}

pub record Produces {A : Type 0} (P : A → Type 0) (m : M A) : Type 0 where
  pub at : (w : World) → IfOk P (m w).0

module _ {A : Type 0} where
  pub Produces-Any : (m : M A) → Produces Any m
  Produces-Any m = record { at = λ w. IfOk-Any (m w).0 }

  itself : (r : Result AppError A) → IfOk (λ a. r ≡ ok a) r
  itself (ok a) = refl
  itself (err e) = tt

  pub Produces-lift : (r : Result AppError A) → Produces (λ a. r ≡ ok a) (lift r)
  Produces-lift r = record { at = λ w. itself r }

  module _ {P : A → Type 0} where
    pub Produces-pure : (a : A) → P a → Produces P (pure a)
    Produces-pure a p = record { at = λ w. p }

    pub returned : (m : M A) (w v : World) (a : A) → Produces P m → m w ≡ (ok a, v) → P a
    returned m w v a p h = subst (λ r. IfOk P r.0) h (p.at w)

module _ {A B : Type 0} {P : A → Type 0} {Q : B → Type 0} where
  continue-Produces :
      (r : Result AppError A × World) (f : A → M B)
      → IfOk P r.0
      → ((a : A) → P a → Produces Q (f a))
      → IfOk Q (continue r f).0
  unfolding continue
  continue-Produces (ok a, v) f p g = (g a p).at v
  continue-Produces (err e, v) f p g = tt

  pub Produces-bind :
      (m : M A) (f : A → M B)
      → Produces P m
      → ((a : A) → P a → Produces Q (f a))
      → Produces Q (m >>= f)
  Produces-bind m f p g = record { at = λ w. continue-Produces (m w) f (p.at w) g }
