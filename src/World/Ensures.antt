-- ===== src/World/Ensures.antt =====
-- What an operation of a request ensures of its result, in a trusted state that it keeps trusted.
use st0x_oracle_server.World.{
  ◌>>=◌, World, M, pure, lift, refuse, continue, quote_live, now_unix_ms, current, snapshot,
  look_up, keep, sign_context, yield, Result, act, signs, reuses,
}
use st0x_oracle_server.World.Trusted.{
  Authentic, Trusted, yield-Trusted, AuthenticFound, lookup-Authentic, act-Trusted,
}
use st0x_oracle_server.Signer.{SignError}
use st0x_oracle_server.Signer.Authentic.{Signs}
use st0x_oracle_server.Wire.{External, Word, Bytes, Address}
use st0x_oracle_server.Refusal.{
  AppError, UnavailableReason, RefusalPhase, Detail, internal, sign_fault,
}
use st0x_oracle_server.Base.{
  ok, ℕ, err, Bool, List, String, if◌then◌else◌, true, ◌≡◌, map_err, refl, ◌∙◌,
}
use st0x_oracle_server.Signer.{Attempt, context_hash, entry_of, begin, finish}
use st0x_oracle_server.Pricing.{QuoteGeneration}
use st0x_oracle_server.Reuse.{ReuseKey}
use st0x_oracle_server.Context.{OracleResponse}
use mathlib.Core.Bool.{false}
use st0x_oracle_server.Base.Errors.{map_ok}
use st0x_oracle_server.Signer.History.{begins}
use st0x_oracle_server.Signer.Answered.{begun, finish_valid, finish-Signs}
use st0x_oracle_server.World.Requests.{yield-requests}

-- The value is right, if there is one.
abbrev pub IfOk {ℓ} : {A : Type ℓ} → (A → Type 0) → Result AppError A → Type 0
IfOk P (ok a) = P a
IfOk P (err e) = Unit

abbrev pub Any {ℓ} : {A : Type ℓ} → A → Type 0
Any a = Unit

module _ (x : External) (sign : Word → ℕ → Attempt) where
  pub record Ensures {A : Type 0} (P : A → Type 0) (m : M A) : Type 0 where
    pub at : (w : World) → Trusted x sign w → Trusted x sign (m w).1 × IfOk P (m w).0
    -- It does not count a request.
    pub requests : (w : World) → Trusted x sign w → (m w).1.requests ≡ w.requests

  abbrev pub SignsFor : List Word → Bytes × Address → Type 0
  SignsFor context (signature, signer) =
      Signs sign (context_hash x context) signature × (signer ≡ x.signer_address)

  finished :
      (context : List Word) (r : Result SignError Bytes)
      → ((b : Bytes) → r ≡ ok b → Signs sign (context_hash x context) b)
      → IfOk
          (SignsFor context)
          (map_err (λ e. internal (sign_fault e)) (map_ok (λ s. (s, x.signer_address)) r))
  finished context (ok b) h = (h b refl, refl)
  finished context (err e) h = tt

pub IfOk-Any : {A : Type 0} (r : Result AppError A) → IfOk Any r
IfOk-Any (ok a) = tt
IfOk-Any (err e) = tt

module _ {x : External} {sign : Word → ℕ → Attempt} where
  module _ {A : Type 0} {P : A → Type 0} where
    pub Ensures-pure : (a : A) → P a → Ensures x sign P (pure a)
    Ensures-pure a p = record { at = λ w t. (t, p); requests = λ w t. refl }

    pub Ensures-lift : (r : Result AppError A) → IfOk P r → Ensures x sign P (lift r)
    Ensures-lift r p = record { at = λ w t. (t, p); requests = λ w t. refl }

    pub Ensures-refuse :
        (reason : UnavailableReason) (endpoint symbol : String) (phase : RefusalPhase)
        (detail : Detail)
        → Ensures x sign P (refuse reason endpoint symbol phase detail)
    Ensures-refuse reason endpoint symbol phase detail = record {
      at = λ w t. (record { signer = t.signer; reuse = t.reuse; others = t.others }, tt);
      requests = λ w t. refl;
    }

    pub Ensures-if :
        (b : Bool) (m n : M A)
        → Ensures x sign P m
        → Ensures x sign P n
        → Ensures x sign P (if b then m else n)
    Ensures-if true m n p q = p
    Ensures-if false m n p q = q

  module _ {A : Type 0} where
    pub Ensures-lift-Any : (r : Result AppError A) → Ensures x sign Any (lift r)
    Ensures-lift-Any r = Ensures-lift r (IfOk-Any r)

  module _ {A B : Type 0} {P : A → Type 0} {Q : B → Type 0} where
    continue-Ensures :
        (r : Result AppError A × World) (f : A → M B)
        → Trusted x sign r.1
        → IfOk P r.0
        → ((a : A) → P a → Ensures x sign Q (f a))
        → Trusted x sign (continue r f).1 × IfOk Q (continue r f).0
    unfolding continue
    continue-Ensures (ok a, v) f t p g = (g a p).at v t
    continue-Ensures (err e, v) f t p g = (t, tt)

    continue-requests :
        (r : Result AppError A × World) (f : A → M B)
        → Trusted x sign r.1
        → IfOk P r.0
        → ((a : A) → P a → Ensures x sign Q (f a))
        → (continue r f).1.requests ≡ r.1.requests
    unfolding continue
    continue-requests (ok a, v) f t p g = (g a p).requests v t
    continue-requests (err e, v) f t p g = refl

    pub Ensures-bind :
        (m : M A) (f : A → M B)
        → Ensures x sign P m
        → ((a : A) → P a → Ensures x sign Q (f a))
        → Ensures x sign Q (m >>= f)
    Ensures-bind m f p g = record {
      at = λ w t. let (t', q) = p.at w t in continue-Ensures (m w) f t' q g;
      requests = λ w t. let (t', q) = p.at w t in continue-requests (m w) f t' q g ∙ p.requests w t;
    }

  pub quote_live-Ensures : (g : QuoteGeneration) → Ensures x sign Any (quote_live sign g)
  unfolding quote_live
  quote_live-Ensures g = record {
    at = λ w t. ((yield-Trusted x sign w t).0, tt);
    requests = λ w t. yield-requests sign w;
  }

  pub now_unix_ms-Ensures : Ensures x sign Any (now_unix_ms sign)
  unfolding now_unix_ms
  now_unix_ms-Ensures = record {
    at = λ w t. ((yield-Trusted x sign w t).0, tt);
    requests = λ w t. yield-requests sign w;
  }

  pub current-Ensures : Ensures x sign Any (current sign)
  unfolding current
  current-Ensures = record {
    at = λ w t. ((yield-Trusted x sign w t).0, tt);
    requests = λ w t. yield-requests sign w;
  }

  pub snapshot-Ensures :
      (chain_id : ℕ) (symbols : List String) → Ensures x sign Any (snapshot sign chain_id symbols)
  unfolding snapshot
  snapshot-Ensures chain_id symbols = record {
    at = λ w t. ((yield-Trusted x sign w t).0, tt);
    requests = λ w t. yield-requests sign w;
  }

  pub look_up-Ensures :
      (key : ReuseKey) (context : List Word) (expiry now : ℕ) (g : QuoteGeneration)
      → Ensures x sign (AuthenticFound x sign) (look_up sign key context expiry now g)
  unfolding look_up
  look_up-Ensures key context expiry now g = record {
    at = λ w t.
        let t' = (yield-Trusted x sign w t).0 in
        (
          t',
          lookup-Authentic x sign (yield sign w).reuse (yield sign w).feed key context expiry now g
              t'.reuse,
        );
    requests = λ w t. yield-requests sign w;
  }

  pub keep-Ensures :
      (key : ReuseKey) (expiry : ℕ) (r : OracleResponse) (g : QuoteGeneration)
      → Authentic x sign r
      → Ensures x sign Any (keep sign key expiry r g)
  unfolding keep act
  keep-Ensures key expiry r g a = record {
    at = λ w t.
        let t' = (yield-Trusted x sign w t).0 in
        (act-Trusted x sign (yield sign w) (reuses key expiry r g) a t', tt);
    requests = λ w t. yield-requests sign w;
  }

  pub sign_context-Ensures :
      (context : List Word) → Ensures x sign (SignsFor x sign context) (sign_context sign x context)
  unfolding sign_context act
  sign_context-Ensures context = record {
    at = λ w0 t0.
        let w = yield sign w0 in
        let t = (yield-Trusted x sign w0 t0).0 in
        let hash = context_hash x context in
        let id = entry_of (begin w.signer.cache hash w.instant).1 in
        let asked = act sign w (signs (begins hash w.instant)) in
        let (t2, keeps) =
          yield-Trusted x sign asked (act-Trusted x sign w (signs (begins hash w.instant)) tt t) in
        let s = (yield sign asked).signer in
        let own = keeps id hash (begun sign w.signer hash w.instant t.signer) in
        (
          record {
            signer = record {
              kept = finish_valid sign s.cache s.owners hash id t2.signer.kept;
              reported = t2.signer.reported;
            };
            reuse = t2.reuse;
            others = t2.others;
          },
          finished x sign context (finish s.cache hash id).1
              (λ b e. finish-Signs sign s hash id b t2.signer own e),
        );
    requests = λ w0 t0.
        yield-requests sign (
          act sign (yield sign w0)
            (signs (begins (context_hash x context) (yield sign w0).instant)))
        ∙ yield-requests sign w0;
  }

-- A check that passes, or counts a refusal.
pub ruleset ensures_rules = (Ensures-if, Ensures-pure, Ensures-refuse)
